-- ===== src/Relay/Samples.antt =====
-- The theorems on relayed messages: one message twice within the window, another between.
use sd_wan_plus.Base.{ℕ, String, ◌≤◌, List, [], ◌∷◌, arith}
use sd_wan_plus.Relay.{Envelope, Deduper, executions, executions-once, Within}

abbrev window : Deduper
window = record { seen = []; ttl = 600 }

abbrev messages : List (ℕ × String)
messages = (100, "m1") ∷ (150, "m2") ∷ (400, "m1") ∷ []

messages-Within : Within 100 600 messages
messages-Within =
    ((omega arith, omega arith), ((omega arith, omega arith), ((omega arith, omega arith), tt)))

executions-once_example : executions window "m1" messages ≤ 1
executions-once_example = executions-once window 100 "m1" messages messages-Within

abbrev envelope : Envelope
envelope = record {
  message_id = "m1";
  source_node_id = "R";
  target_node_id = "B";
  network_id = "net";
  ttl = 2;
  trace_id = "t1";
  payload_type = "config";
  payload = [];
}
