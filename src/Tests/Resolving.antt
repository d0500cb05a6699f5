-- ===== src/Tests/Resolving.antt =====
-- The oracles' theorems at a concrete market.
use over_under.Prelude.{◌+◌, ◌≤◌, ◌≡◌, ◌↔◌, refl, true, false, some, List, [], ◌∷◌, arith}
use over_under.Oracles.Fallback.{
  count, majority, combine, attest, Slot, Report, slot_of, FallbackState, accepted, passes, Api,
  after_attest, attest_slot, attest_one, attest_report, attest_all, fallback_resolved, check,
  finish, decide, after_loop, gate, run_fallback,
}
use over_under.Oracles.Fallback.Majority.{
  majority_lem, run_fallback_keeps, Resolvable, run_fallback-Resolvable,
}

majority_lem_example : (majority (1 ∷ 0 ∷ 1 ∷ []) ≡ some 1) ↔ (2 ≤ count 1 (1 ∷ 0 ∷ 1 ∷ []))
majority_lem_example = majority_lem (1 ∷ 0 ∷ 1 ∷ []) 1 (omega arith) (omega arith)

-- The agents' addresses are their names and ten.
abbrev api : Api
api = record {
  agent_address = λ name. some (name + 10);
  submit_attestation = λ addr outcome. accepted;
  preflight_fallback = passes;
  resolve_fallback = accepted;
  resolve_arbitrated = λ outcome. accepted;
}

abbrev empty_slot : Slot
empty_slot = record { submitted = false; outcome = 0 }

-- One agent has attested NO before.
abbrev market_state : FallbackState
market_state = record {
  resolved = false;
  close_time = 1000;
  window = 86_400;
  now = 90_000;
  agents =
      (11, empty_slot) ∷ (12, empty_slot) ∷ (13, record { submitted = true; outcome = 1 }) ∷ [];
  yes_votes = 3;
  no_votes = 1;
}

abbrev reports : List Report
reports =
    record { agent = 1; outcome = 0 }
    ∷ record { agent = 2; outcome = 0 }
    ∷ record { agent = 3; outcome = 1 }
    ∷ []

resolves : (run_fallback api attest true 0 reports market_state).ending ≡ fallback_resolved
unfolding run_fallback gate after_loop attest_all attest_report attest_one attest_slot after_attest
    decide check finish majority count combine
resolves = refl

run_fallback_keeps_example :
    slot_of 13 (run_fallback api attest true 0 reports market_state).slots
    ≡ some (record { submitted = true; outcome = 1 })
run_fallback_keeps_example =
    run_fallback_keeps api attest true 0 reports market_state 13
      (record { submitted = true; outcome = 1 }) refl refl

run_fallback-Resolvable_example :
    Resolvable api 0 market_state (run_fallback api attest true 0 reports market_state).slots
run_fallback-Resolvable_example =
    run_fallback-Resolvable api attest true 0 reports market_state resolves
