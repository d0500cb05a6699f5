-- ===== src/Oracles/Fallback.antt =====
-- The fallback of a market whose agents did not agree (oracles/consensus/fallback.py and `run_fallback`
-- of oracles/resolve/fallback.py). What the chain and the coordinator answer are arguments; the notes
-- for the log are left out. Agents and addresses are numbers.
pub mod Majority
use over_under.Prelude.{
  ℕ, zero, suc, ◌+◌, ◌*◌, Bool, true, false, not, ◌&&◌, ◌||◌, Option, none, some, List, [], ◌∷◌,
  ◌++◌, ltb, leb, ◌==◌, if◌then◌else◌,
}

-- How many of the outcomes are `o`.
unfoldable pub count : ℕ → List ℕ → ℕ
count o [] = 0
count o (x ∷ xs) = if x == o then suc (count o xs) else count o xs

-- `majority`: an empty list has none, as its counts are 0.
unfoldable pub majority : List ℕ → Option ℕ
unfolding count
majority outcomes =
    if leb 2 (count 0 outcomes) then some 0 else if leb 2 (count 1 outcomes) then some 1 else none

pub data Combined : Type 0 where
  agent agree arbitrate : Combined

-- `combine`
unfoldable pub combine : ℕ → ℕ → ℕ → Combined
combine agent_outcome yes_weight no_weight =
    let total = yes_weight + no_weight in
    let vote_out = if leb no_weight yes_weight then 0 else 1 in
    let opposing = if agent_outcome == 0 then no_weight else yes_weight in
    if total == 0
    then agent
    else if vote_out == agent_outcome
    then agree
    else if leb (total * 2) (opposing * 3)
    then arbitrate
    else agent

pub data Policy : Type 0 where
  manual attest arbitrating : Policy

pub record Slot : Type 0 where
  pub submitted : Bool
  pub outcome : ℕ

pub record Report : Type 0 where
  pub agent : ℕ
  pub outcome : ℕ

-- `slots`: the oracle's agents by address.
abbrev pub Slots : Type 0
Slots = List (ℕ × Slot)

abbrev pub slot_of : ℕ → Slots → Option Slot
slot_of a [] = none
slot_of a ((b, s) ∷ rest) = if b == a then some s else slot_of a rest

abbrev pub set_slot : ℕ → Slot → Slots → Slots
set_slot a s' [] = []
set_slot a s' ((b, s) ∷ rest) = (b, if b == a then s' else s) ∷ set_slot a s' rest

-- `[int(s["outcome"]) for s in slots.values() if s["submitted"]]`
abbrev pub submitted_outcomes : Slots → List ℕ
submitted_outcomes [] = []
submitted_outcomes ((a, s) ∷ rest) =
    if s.submitted then s.outcome ∷ submitted_outcomes rest else submitted_outcomes rest

-- `fallback_state`
pub record FallbackState : Type 0 where
  pub resolved : Bool
  pub close_time : ℕ
  pub window : ℕ
  pub now : ℕ
  pub agents : Slots
  pub yes_votes : ℕ
  pub no_votes : ℕ

-- How a send ends: accepted; not broadcast, as the tick's budget does not cover it; an error. The
-- error of an attestation may be a "dup attestation" whose slot now is submitted (`_raced_slot`), that
-- of a resolving send may come after another sender's resolution.
pub data Sent : Type 0 where
  accepted deferred failed : Sent
  raced : ℕ → Sent

-- Why a fallback is held up: a reason of its own wording, or one of the contract's.
pub data Blocker : Type 0 where
  no_majority arbitration_required refused : Blocker

-- The contract's preflight of a fallback; any other error than a revert raises.
pub data Checked : Type 0 where
  passes : Checked
  blocks : Blocker → Checked
  raises : Checked

-- What the coordinator and the chain answer: an agent's address, the sends, and the contract's
-- preflight of a fallback.
pub record Api : Type 0 where
  pub agent_address : ℕ → Option ℕ
  pub submit_attestation : ℕ → ℕ → Sent
  pub preflight_fallback : Checked
  pub resolve_fallback : Sent
  pub resolve_arbitrated : ℕ → Sent

pub record Attesting : Type 0 where
  pub slots : Slots
  pub attested : List ℕ
  pub supporters : List ℕ

-- The loop goes on, or an exception leaves it.
pub data Loop : Type 0 where
  going stopped broken : Attesting → Loop

abbrev pub support : ℕ → ℕ → ℕ → Attesting → Attesting
support derived outcome name t =
    if outcome == derived then record t { supporters = t.supporters ++ name ∷ [] } else t

-- What the send of an attestation makes of the slots.
unfoldable pub after_attest : ℕ → ℕ → ℕ → Attesting → Sent → Loop
after_attest derived name addr t accepted = going (record {
  slots = set_slot addr (record { submitted = true; outcome = derived }) t.slots;
  attested = t.attested ++ name ∷ [];
  supporters = t.supporters ++ name ∷ [];
})
after_attest derived name addr t deferred = stopped t
after_attest derived name addr t failed = broken t
after_attest derived name addr t (raced outcome) = going (
    support derived outcome name
      (record t { slots = set_slot addr (record { submitted = true; outcome = outcome }) t.slots }))

unfoldable pub attest_slot : Api → ℕ → ℕ → ℕ → Attesting → Option Slot → Loop
unfolding after_attest
attest_slot api derived name addr t none = going t
attest_slot api derived name addr t (some slot) =
    if slot.submitted
    then going (support derived slot.outcome name t)
    else after_attest derived name addr t (api.submit_attestation addr derived)

unfoldable pub attest_one : Api → ℕ → ℕ → Attesting → Option ℕ → Loop
unfolding attest_slot
attest_one api derived name t none = going t
attest_one api derived name t (some addr) =
    attest_slot api derived name addr t (slot_of addr t.slots)

abbrev pub and_then : Loop → (Attesting → Loop) → Loop
and_then (going t) f = f t
and_then (stopped t) f = stopped t
and_then (broken t) f = broken t

-- Only the reports that match are attested.
unfoldable pub attest_report : Api → ℕ → Report → Attesting → Loop
unfolding attest_one
attest_report api derived r t =
    if r.outcome == derived
    then attest_one api derived r.agent t (api.agent_address r.agent)
    else going t

-- `for report in matching`
unfoldable pub attest_all : Api → ℕ → List Report → Attesting → Loop
unfolding attest_report
attest_all api derived [] t = going t
attest_all api derived (r ∷ rs) t =
    and_then (attest_report api derived r t) (attest_all api derived rs)

-- The reasons of a market that is not resolved, and the ways in which it is.
pub data Ending : Type 0 where
  mismatch already_resolved not_registered conflict : Ending
  blocked : Blocker → Ending
  fallback_resolved arbitrated : Ending
  send_deferred send_failed preflight_raised : Ending

pub record Result : Type 0 where
  pub ending : Ending
  pub slots : Slots
  pub attested : List ℕ

-- `_resolve_send`
abbrev pub resolve_send : Ending → Sent → Ending
resolve_send good accepted = good
resolve_send good deferred = send_deferred
resolve_send good failed = send_failed
resolve_send good (raced outcome) = already_resolved

-- The votes against the agents' majority, then the contract's preflight.
abbrev pub votes_first : Combined → Checked → Checked
votes_first arbitrate checked = blocks arbitration_required
votes_first agent checked = checked
votes_first agree checked = checked

unfoldable pub check : Api → FallbackState → Option ℕ → Checked
unfolding combine
check api st none = blocks no_majority
check api st (some out) = votes_first (combine out st.yes_votes st.no_votes) api.preflight_fallback

abbrev pub arbitrable : Blocker → Bool
arbitrable refused = false
arbitrable _ = true

abbrev pub is_arbitrating : Policy → Bool
is_arbitrating arbitrating = true
is_arbitrating _ = false

unfoldable pub finish : Api → Policy → Bool → ℕ → Checked → Ending
finish api policy allow_arbitrate derived passes =
    resolve_send fallback_resolved api.resolve_fallback
finish api policy allow_arbitrate derived raises = preflight_raised
finish api policy allow_arbitrate derived (blocks why) =
    if allow_arbitrate && (is_arbitrating policy && arbitrable why)
    then resolve_send arbitrated (api.resolve_arbitrated derived)
    else blocked why

-- `agent_out is not None and agent_out != derived`
abbrev pub against : ℕ → Option ℕ → Bool
against derived none = false
against derived (some out) = not (out == derived)

-- The agents' majority behind the attestations decides how the fallback goes on.
unfoldable pub decide : Api → Policy → Bool → ℕ → FallbackState → Option ℕ → Ending
unfolding check finish
decide api policy allow derived st out =
    if against derived out then conflict else finish api policy allow derived (check api st out)

unfoldable pub after_loop : Api → Policy → Bool → ℕ → FallbackState → Loop → Result
unfolding majority decide
after_loop api policy allow derived st (stopped t) = record {
  ending = send_deferred;
  slots = t.slots;
  attested = t.attested;
}
after_loop api policy allow derived st (broken t) = record {
  ending = send_failed;
  slots = t.slots;
  attested = t.attested;
}
after_loop api policy allow derived st (going t) = record {
  ending = decide api policy allow derived st (majority (submitted_outcomes t.slots));
  slots = t.slots;
  attested = t.attested;
}

abbrev pub is_manual : Policy → Bool
is_manual manual = true
is_manual _ = false

-- The early returns, before anything is sent.
unfoldable pub gate : Policy → ℕ → FallbackState → Option Ending
unfolding majority
gate policy derived st =
    if is_manual policy
    then some mismatch
    else if st.resolved
    then some already_resolved
    else if st.close_time == 0
    then some not_registered
    else if ltb st.now (st.close_time + st.window)
    then some mismatch
    else if against derived (majority (submitted_outcomes st.agents))
    then some conflict
    else none

abbrev pub unless_gated : Option Ending → Slots → Result → Result
unless_gated none slots run = run
unless_gated (some why) slots run = record { ending = why; slots = slots; attested = [] }

-- `run_fallback`
unfoldable pub run_fallback : Api → Policy → Bool → ℕ → List Report → FallbackState → Result
unfolding attest_all after_loop gate
run_fallback api policy allow derived reports st = unless_gated (gate policy derived st) st.agents (
    after_loop api policy allow derived st (
      attest_all api derived reports
        (record { slots = st.agents; attested = []; supporters = [] })))
