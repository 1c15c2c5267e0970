-- ===== src/Relay.antt =====
-- internal/relay/relay.go: envelopes, and the window in which a message is not executed twice. Times
-- are numbers of nanoseconds, and the clock is an argument.
mod Samples
use sd_wan_plus.Base.{
  ℕ, zero, suc, ◌+◌, ◌-◌, ◌≤◌, ◌<◌, ◌%◌, String, ◌==◌, eq_iff, ==-self, ◌≡◌, refl, ◌↔◌, ◌⊎◌, inl,
  inr, Bool, true, false, Option, some, none, List, [], ◌∷◌, if◌then◌else◌, ltb, eqb, Dict, lookup,
  not, ◌&&◌, Bool-cases, Option-cases, All, ==-cases, ap, subst, sym, ◌∙◌, arith,
}

pub record Envelope : Type 0 where
  pub message_id : String
  pub source_node_id : String
  pub target_node_id : String
  pub network_id : String
  pub ttl : ℕ
  pub trace_id : String
  pub payload_type : String
  pub payload : List ℕ

-- `id` and `trace` are the two texts that uuid.NewString returns.
unfoldable pub new_envelope :
    (id trace : String) → String → String → String → String → List ℕ → Envelope
new_envelope id trace src dst network payload_type payload = record {
  message_id = id;
  source_node_id = src;
  target_node_id = dst;
  network_id = network;
  ttl = 32;
  trace_id = trace;
  payload_type = payload_type;
  payload = payload;
}

unfoldable pub decrement_ttl : Envelope → Bool × Envelope
decrement_ttl e = if eqb e.ttl 0 then (false, e) else (true, record e { ttl = e.ttl - 1 })

-- The relays that an envelope may still pass: DecrementTTL before each, `fuel` relays at most.
unfoldable pub hops_left : (fuel : ℕ) → Envelope → ℕ
hops_left zero e = 0
hops_left (suc fuel) e =
    let rest = hops_left fuel (decrement_ttl e).1 in if (decrement_ttl e).0 then suc rest else 0

-- Deduper: the time at which each message was first seen, and the window.
pub record Deduper : Type 0 where
  pub seen : Dict ℕ
  pub ttl : ℕ

unfoldable pub new_deduper : ℕ → Deduper
new_deduper ttl = record { seen = []; ttl = ttl }

unfoldable pub expire : ℕ → ℕ → Dict ℕ → Dict ℕ
expire now ttl [] = []
expire now ttl (e ∷ es) =
    let rest = expire now ttl es in if ltb ttl (now - e.1) then rest else e ∷ rest

unfoldable pub seen_before : Deduper → (now : ℕ) → String → Bool × Deduper
seen_before d now id =
    let kept = expire now d.ttl d.seen in
    elim (lookup id kept) [
      | some t ↦ (true, record d { seen = kept })
      | none ↦ (false, record d { seen = (id, now) ∷ kept })
    ]

-- How often a receiver executes the message `id`: it does so where `Seen` answers false. The items
-- are the messages that arrive, each with its time.
unfoldable pub executions : Deduper → String → List (ℕ × String) → ℕ
executions d id [] = 0
executions d id (m ∷ ms) =
    let r = seen_before d m.0 m.1 in
    let rest = executions r.1 id ms in if m.1 == id && not r.0 then suc rest else rest

and_false : (a : Bool) → (a && false) ≡ false
and_false a = ground arith

lookup-expire :
    (now ttl : ℕ) (m : Dict ℕ) (id : String) (t : ℕ)
    → now - t ≤ ttl
    → lookup id m ≡ some t
    → lookup id (expire now ttl m) ≡ some t
unfolding expire
lookup-expire now ttl [] id t le h = h
lookup-expire now ttl (e ∷ es) id t le h = ground (arith, lookup-expire now ttl es id t le)

seen_before-cases :
    (d : Deduper) (now : ℕ) (id : String)
    → ((t : ℕ) × (lookup id (expire now d.ttl d.seen) ≡ some t)
        × (seen_before d now id ≡ (true, record d { seen = expire now d.ttl d.seen })))
      ⊎ (lookup id (expire now d.ttl d.seen) ≡ none)
        × (seen_before d now id ≡ (false, record d { seen = (id, now) ∷ expire now d.ttl d.seen }))
unfolding seen_before
seen_before-cases d now id = elim (Option-cases (lookup id (expire now d.ttl d.seen))) [
  | inl e ↦ inr (e, rw (e, seen_before))
  | inr (t, e) ↦ inl (t, e, rw (e, seen_before))
]

-- The times of the messages lie in a window.
abbrev pub Within : (start ttl : ℕ) → List (ℕ × String) → Type 0
Within start ttl ms = All (λ m. (start ≤ m.0) × (m.0 ≤ start + ttl)) ms

executions-known :
    (d : Deduper) (start t : ℕ) (id : String) (ms : List (ℕ × String))
    → Within start d.ttl ms
    → lookup id d.seen ≡ some t
    → start ≤ t
    → executions d id ms ≡ 0
unfolding executions
executions-known d start t id [] w h le = refl
executions-known d start t id (m ∷ ms) w h le =
    let kept = lookup-expire m.0 d.ttl d.seen id t (omega (arith, w.0.0, w.0.1)) h in
    elim (seen_before-cases d m.0 m.1) [
      | inl (u, f, e) ↦
          rw (e, and_false (m.1 == id))
            (executions-known (record d { seen = expire m.0 d.ttl d.seen }) start t id ms w.1 kept
              le)
      | inr (f, e) ↦ elim (==-cases m.1 id) [
        | inl (x, y) ↦
            let found = subst (λ k. lookup k (expire m.0 d.ttl d.seen) ≡ some t) (sym x) kept in
            absurd (cc (sym f ∙ found))
        | inr (x, y) ↦
            rw (e, y)
              (executions-known (record d { seen = (m.1, m.0) ∷ expire m.0 d.ttl d.seen }) start t
                id ms w.1 (rw y kept) le)
      ]
    ]

-- Among the messages of one window of the Deduper's length, none is executed twice.
pub executions-once :
    (d : Deduper) (start : ℕ) (id : String) (ms : List (ℕ × String))
    → Within start d.ttl ms
    → executions d id ms ≤ 1
unfolding executions
executions-once d start id [] w = omega arith
executions-once d start id (m ∷ ms) w = elim (seen_before-cases d m.0 m.1) [
  | inl (u, f, e) ↦
      rw (e, and_false (m.1 == id))
        (executions-once (record d { seen = expire m.0 d.ttl d.seen }) start id ms w.1)
  | inr (f, e) ↦ elim (==-cases m.1 id) [
    | inl (x, y) ↦
        rw (e, y)
          (omega (
            arith,
            executions-known (record d { seen = (m.1, m.0) ∷ expire m.0 d.ttl d.seen }) start m.0 id
                ms w.1 (rw y refl) w.0.0,
          ))
    | inr (x, y) ↦
        rw (e, y)
          (executions-once (record d { seen = (m.1, m.0) ∷ expire m.0 d.ttl d.seen }) start id ms
            w.1)
  ]
]

-- An envelope of TTL n passes exactly n relays.
pub hops_left-ttl : (e : Envelope) (fuel : ℕ) → e.ttl ≤ fuel → hops_left fuel e ≡ e.ttl
unfolding hops_left decrement_ttl
hops_left-ttl e zero h = omega (arith, h)
hops_left-ttl e (suc fuel) h = ground (arith, hops_left-ttl (record e { ttl = e.ttl - 1 }) fuel)
