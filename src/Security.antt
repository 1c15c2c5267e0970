-- ===== src/Security.antt =====
-- internal/security/crypto.go: the limiter of attempts, the encoded password, the box for secrets and
-- the clamping of keys. The ciphers, the digests and base64 are parameters, and so are the random
-- bytes.
pub mod Limiter
pub mod Secrets
mod Samples
