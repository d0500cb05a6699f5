-- ===== src/Oracles/Fallback/Majority.antt =====
-- When the fallback resolves a market, and what it leaves of the agents' slots.
use over_under.Prelude.{
  ℕ, zero, suc, ◌+◌, ◌≤◌, ◌<◌, ◌≡◌, ◌≢◌, ◌↔◌, inl, inr, refl, Bool, true, false, Option, none, some,
  List, [], ◌∷◌, arith, Bool-cases, Option-cases, length, ap, sym, subst, ◌∙◌, ◌==◌,
}
use over_under.Oracles.Fallback.{
  count, majority, Combined, arbitrate, combine, Policy, Slot, Report, Slots, slot_of, set_slot,
  submitted_outcomes, FallbackState, Sent, accepted, deferred, failed, raced, Checked, passes, Api,
  Attesting, Loop, going, stopped, broken, after_attest, attest_slot, attest_one, and_then, support,
  attest_report, votes_first, attest_all, Ending, fallback_resolved, check, finish, after_loop,
  decide, gate, unless_gated, run_fallback,
}

count_two : (xs : List ℕ) → count 0 xs + count 1 xs ≤ length xs
unfolding count
count_two [] = omega arith
count_two (x ∷ xs) = ground (arith, count_two xs)

-- Among at most three outcomes, one of the two that are votes is the majority exactly when two at
-- least are it.
pub majority_lem :
    (outcomes : List ℕ) (o : ℕ)
    → length outcomes ≤ 3
    → o < 2
    → (majority outcomes ≡ some o) ↔ (2 ≤ count o outcomes)
unfolding majority
majority_lem outcomes zero short vote = (λ h. ground arith, λ h. ground arith)
majority_lem outcomes (suc n) short vote =
    let last : n ≡ 0 = omega arith in
    rw last (λ h. ground arith, λ h. ground (arith, count_two outcomes))

-- The slot of an address is kept if it has an attestation.
abbrev Keeps : Slots → Slots → Type 0
Keeps before after =
    (a : ℕ) (s : Slot) → slot_of a before ≡ some s → s.submitted ≡ true → slot_of a after ≡ some s

slots_of : Loop → Slots
slots_of (going t) = t.slots
slots_of (stopped t) = t.slots
slots_of (broken t) = t.slots

set_slot-other :
    (a b : ℕ) (s s' : Slot) (slots : Slots)
    → slot_of a slots ≡ some s
    → a ≢ b
    → slot_of a (set_slot b s' slots) ≡ some s
set_slot-other a b s s' [] e ne = cc
set_slot-other a b s s' ((k, x) ∷ rest) e ne = ground (arith, set_slot-other a b s s' rest)

Keeps-trans : (a b c : Slots) → Keeps a b → Keeps b c → Keeps a c
Keeps-trans a b c h k addr s e done = k addr s (h addr s e done) done

-- A slot is written only where none was submitted.
set_slot-Keeps :
    (slots : Slots) (addr : ℕ) (slot s' : Slot)
    → slot_of addr slots ≡ some slot
    → slot.submitted ≡ false
    → Keeps slots (set_slot addr s' slots)
set_slot-Keeps slots addr slot s' there fresh a s e done =
    set_slot-other a addr s s' slots e (λ same. ground (arith, there, e, same))

support-slots :
    (derived outcome name : ℕ) (t : Attesting) → (support derived outcome name t).slots ≡ t.slots
support-slots derived outcome name t = ground arith

after_attest-Keeps :
    (derived name addr : ℕ) (t : Attesting) (slot : Slot) (sent : Sent)
    → slot_of addr t.slots ≡ some slot
    → slot.submitted ≡ false
    → Keeps t.slots (slots_of (after_attest derived name addr t sent))
unfolding after_attest slots_of
after_attest-Keeps derived name addr t slot accepted there fresh =
    set_slot-Keeps t.slots addr slot _ there fresh
after_attest-Keeps derived name addr t slot deferred there fresh = λ a s e done. e
after_attest-Keeps derived name addr t slot failed there fresh = λ a s e done. e
after_attest-Keeps derived name addr t slot (raced outcome) there fresh = λ a s e done.
    rw (support-slots derived outcome name _)
      (set_slot-Keeps t.slots addr slot _ there fresh a s e done)

attest_slot-Keeps :
    (api : Api) (derived name addr : ℕ) (t : Attesting) (slot : Option Slot)
    → slot_of addr t.slots ≡ slot
    → Keeps t.slots (slots_of (attest_slot api derived name addr t slot))
unfolding attest_slot slots_of
attest_slot-Keeps api derived name addr t none there = λ a s e done. e
attest_slot-Keeps api derived name addr t (some slot) there = elim (Bool-cases slot.submitted) [
  | inl old ↦ λ a s e done. rw old (rw (support-slots derived slot.outcome name t) e)
  | inr fresh ↦ rw fresh (
      after_attest-Keeps derived name addr t slot (api.submit_attestation addr derived) there fresh)
]

attest_one-Keeps :
    (api : Api) (derived name : ℕ) (t : Attesting) (addr : Option ℕ)
    → Keeps t.slots (slots_of (attest_one api derived name t addr))
unfolding attest_one slots_of
attest_one-Keeps api derived name t none = λ a s e done. e
attest_one-Keeps api derived name t (some addr) =
    attest_slot-Keeps api derived name addr t (slot_of addr t.slots) refl

and_then-Keeps :
    (before : Slots) (m : Loop) (f : Attesting → Loop)
    → Keeps before (slots_of m)
    → ((t : Attesting) → Keeps t.slots (slots_of (f t)))
    → Keeps before (slots_of (and_then m f))
unfolding slots_of
and_then-Keeps before (going t) f h k = Keeps-trans before t.slots (slots_of (f t)) h (k t)
and_then-Keeps before (stopped t) f h k = h
and_then-Keeps before (broken t) f h k = h

report-Keeps :
    (api : Api) (derived : ℕ) (r : Report) (t : Attesting)
    → Keeps t.slots (slots_of (attest_report api derived r t))
unfolding attest_report slots_of
report-Keeps api derived r t = elim (Bool-cases (r.outcome == derived)) [
  | inl same ↦ rw same (attest_one-Keeps api derived r.agent t (api.agent_address r.agent))
  | inr other ↦ rw other (λ a s e done. e)
]

attest_all-Keeps :
    (api : Api) (derived : ℕ) (reports : List Report) (t : Attesting)
    → Keeps t.slots (slots_of (attest_all api derived reports t))
unfolding attest_all slots_of
attest_all-Keeps api derived [] t = λ a s e done. e
attest_all-Keeps api derived (r ∷ rs) t =
    and_then-Keeps t.slots (attest_report api derived r t) (attest_all api derived rs)
      (report-Keeps api derived r t) (attest_all-Keeps api derived rs)

after_loop-slots :
    (api : Api) (policy : Policy) (allow : Bool) (derived : ℕ) (st : FallbackState) (l : Loop)
    → (after_loop api policy allow derived st l).slots ≡ slots_of l
unfolding after_loop slots_of
after_loop-slots api policy allow derived st (going t) = refl
after_loop-slots api policy allow derived st (stopped t) = refl
after_loop-slots api policy allow derived st (broken t) = refl

-- A fallback never overwrites an attestation: a slot that is submitted before is the same behind it,
-- however its sends end.
pub run_fallback_keeps :
    (api : Api) (policy : Policy) (allow : Bool) (derived : ℕ) (reports : List Report)
    (st : FallbackState) (a : ℕ) (s : Slot)
    → slot_of a st.agents ≡ some s
    → s.submitted ≡ true
    → slot_of a (run_fallback api policy allow derived reports st).slots ≡ some s
unfolding run_fallback
run_fallback_keeps api policy allow derived reports st a s e done =
    elim (Option-cases (gate policy derived st)) [
      | inl pass ↦ rw pass (
          rw (after_loop-slots api policy allow derived st (attest_all api derived reports start))
            (attest_all-Keeps api derived reports start a s e done))
      | inr (why, held) ↦ rw held e
    ]
  where
    start : Attesting
    start = record { slots = st.agents; attested = []; supporters = [] }

-- What the end of the loop needs to resolve the market.
finish_lem :
    (api : Api) (policy : Policy) (allow : Bool) (derived : ℕ) (v : Combined) (p : Checked)
    → finish api policy allow derived (votes_first v p) ≡ fallback_resolved
    → (v ≢ arbitrate) × (p ≡ passes)
unfolding finish
finish_lem api policy allow derived v p e = ground arith

-- What must hold for a fallback to resolve the market by the agents.
pub record Resolvable (api : Api) (derived : ℕ) (st : FallbackState) (slots : Slots) : Type 0 where
  pub elapsed : st.close_time + st.window ≤ st.now
  pub agreed : majority (submitted_outcomes slots) ≡ some derived
  pub undisputed : combine derived st.yes_votes st.no_votes ≢ arbitrate
  pub preflight : api.preflight_fallback ≡ passes

decide_lem :
    (api : Api) (policy : Policy) (allow : Bool) (derived : ℕ) (st : FallbackState) (out : Option ℕ)
    → decide api policy allow derived st out ≡ fallback_resolved
    → (out ≡ some derived)
      × (combine derived st.yes_votes st.no_votes ≢ arbitrate)
      × (api.preflight_fallback ≡ passes)
unfolding decide check
decide_lem api policy allow derived st none e =
    absurd (ground (arith, finish_lem api policy allow derived arbitrate passes))
decide_lem api policy allow derived st (some o) e = elim (Bool-cases (o == derived)) [
  | inl same ↦
      let eq : o ≡ derived = ground arith in
      let (calm, pass) =
        finish_lem api policy allow derived (combine o st.yes_votes st.no_votes)
          api.preflight_fallback (ground arith) in
      (ap some eq, λ a. calm (ap (λ k. combine k st.yes_votes st.no_votes) eq ∙ a), pass)
  | inr other ↦ absurd (ground arith)
]

after_loop_lem :
    (api : Api) (policy : Policy) (allow : Bool) (derived : ℕ) (st : FallbackState) (l : Loop)
    → st.close_time + st.window ≤ st.now
    → (after_loop api policy allow derived st l).ending ≡ fallback_resolved
    → Resolvable api derived st (slots_of l)
unfolding after_loop slots_of
after_loop_lem api policy allow derived st (stopped t) late e = absurd (ground arith)
after_loop_lem api policy allow derived st (broken t) late e = absurd (ground arith)
after_loop_lem api policy allow derived st (going t) late e =
    let (agreed, calm, pass) = decide_lem api policy allow derived st _ e in
    record { elapsed = late; agreed = agreed; undisputed = calm; preflight = pass }

gate_lem :
    (policy : Policy) (derived : ℕ) (st : FallbackState)
    → gate policy derived st ≡ none
    → st.close_time + st.window ≤ st.now
unfolding gate
gate_lem policy derived st e = ground arith

gate-not :
    (policy : Policy) (derived : ℕ) (st : FallbackState)
    → gate policy derived st ≢ some fallback_resolved
unfolding gate
gate-not policy derived st e = ground arith

gated_lem :
    (api : Api) (policy : Policy) (allow : Bool) (derived : ℕ) (st : FallbackState) (l : Loop)
    (g : Option Ending)
    → gate policy derived st ≡ g
    → (unless_gated g st.agents (after_loop api policy allow derived st l)).ending
      ≡ fallback_resolved
    → Resolvable api derived st
        (unless_gated g st.agents (after_loop api policy allow derived st l)).slots
gated_lem api policy allow derived st l (some why) g e =
    absurd (gate-not policy derived st (g ∙ ap some e))
gated_lem api policy allow derived st l none g e =
    subst (Resolvable api derived st) (sym (after_loop-slots api policy allow derived st l))
      (after_loop_lem api policy allow derived st l (gate_lem policy derived st g) e)

-- A run that ends with the fallback resolved has waited out the window, the majority of the slots as
-- it leaves them is the derived outcome, the votes do not call for arbitration against it, and the
-- contract's preflight passed.
pub run_fallback-Resolvable :
    (api : Api) (policy : Policy) (allow : Bool) (derived : ℕ) (reports : List Report)
    (st : FallbackState)
    → (run_fallback api policy allow derived reports st).ending ≡ fallback_resolved
    → Resolvable api derived st (run_fallback api policy allow derived reports st).slots
unfolding run_fallback
run_fallback-Resolvable api policy allow derived reports st e =
    gated_lem api policy allow derived st
      (attest_all api derived reports
        (record { slots = st.agents; attested = []; supporters = [] }))
      (gate policy derived st) refl e
