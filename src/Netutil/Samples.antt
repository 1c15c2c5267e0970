-- ===== src/Netutil/Samples.antt =====
-- The theorem on IPv4 addresses at an input of internal/netutil/addr_test.go.
use sd_wan_plus.Base.{◌≡◌, ◌↔◌, false}
use sd_wan_plus.Netutil.{v4, public_ip}
use sd_wan_plus.Netutil.Dialable.{Special, public_ip-v4_iff}

public_ip-v4_iff_example : (public_ip (v4 192 168 1 10) ≡ false) ↔ Special 192 168 1 10
public_ip-v4_iff_example = public_ip-v4_iff 192 168 1 10
