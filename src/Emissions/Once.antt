-- ===== src/Emissions/Once.antt =====
-- What the distributions of backend/app/emissions/router.py broadcast, and what is on record by then.
use over_under.Prelude.{
  ℕ, ◌≡◌, refl, ap, ◌∙◌, Bool, true, false, ◌&&◌, ◌||◌, Option, none, some, List, [], ◌∷◌, ◌++◌,
  map, arith, ◌==◌, All, length, ◌≤◌, ◌⊎◌, inl, inr, if◌then◌else◌,
}
use over_under.Emissions.{
  PaidStatus, Distribution, PaidChain, Paid, is_live_status, is_live_of, last_or, last_live, resend,
  answer_repeat, duplicate, refresh_of, pay, answer_live, commit, insert_and_send, distribute,
  Payment, new_row, next_nonce, sign_and_insert,
}

abbrev pub is_write_ahead : PaidStatus → Bool
is_write_ahead PaidStatus.sending = true
is_write_ahead _ = false

abbrev pub is_bytes : ℕ → Option ℕ → Bool
is_bytes raw none = false
is_bytes raw (some bytes) = bytes == raw

-- A write-ahead record of these bytes for the payload and key.
abbrev pub is_record : ℕ → ℕ → ℕ → Distribution → Bool
is_record payload key raw r =
    is_live_of payload key r && is_write_ahead r.status && is_bytes raw r.raw_tx

unfoldable pub on_record : ℕ → ℕ → ℕ → List Distribution → Bool
on_record payload key raw [] = false
on_record payload key raw (r ∷ rows) = is_record payload key raw r || on_record payload key raw rows

or_left : (a b : Bool) → a ≡ true → a || b ≡ true
or_left true b h = refl
or_left false b h = absurd (ground (arith, h))

or_right : (a b : Bool) → b ≡ true → a || b ≡ true
or_right true b h = refl
or_right false b h = h

on_record-last :
    (payload key raw : ℕ) (rows : List Distribution) (r : Distribution)
    → is_record payload key raw r ≡ true
    → on_record payload key raw (rows ++ r ∷ []) ≡ true
unfolding on_record
on_record-last payload key raw [] r h = or_left _ _ h
on_record-last payload key raw (x ∷ rows) r h =
    or_right _ _ (on_record-last payload key raw rows r h)

if_live-cases :
    (live : Bool) (later : Option Distribution) (x o : Distribution)
    → (if live then last_or later x else later) ≡ some o
    → (later ≡ some o) ⊎ (live ≡ true) × (x ≡ o)
if_live-cases false later x o h = inl h
if_live-cases true none x o h = inr (refl, ap (λ p. elim p [ none ↦ x | some y ↦ y ]) h)
if_live-cases true (some y) x o h = inl h

last_live-cases :
    (payload key : ℕ) (rows : List Distribution) (x o : Distribution)
    → last_live payload key (x ∷ rows) ≡ some o
    → (last_live payload key rows ≡ some o) ⊎ (is_live_of payload key x ≡ true) × (x ≡ o)
unfolding last_live
last_live-cases payload key rows x o h =
    if_live-cases (is_live_of payload key x) (last_live payload key rows) x o h

is_record_lem :
    (payload key raw : ℕ) (r : Distribution)
    → is_live_of payload key r ≡ true
    → is_write_ahead r.status ≡ true
    → r.raw_tx ≡ some raw
    → is_record payload key raw r ≡ true
is_record_lem payload key raw r l s e = ground (arith, l, s, e)

on_record-last_live :
    (payload key raw : ℕ) (rows : List Distribution) (o : Distribution)
    → last_live payload key rows ≡ some o
    → is_write_ahead o.status ≡ true
    → o.raw_tx ≡ some raw
    → on_record payload key raw rows ≡ true
unfolding on_record last_live
on_record-last_live payload key raw [] o h s e = absurd (ground (arith, h))
on_record-last_live payload key raw (x ∷ rows) o h s e =
    elim (last_live-cases payload key rows x o h) [
      | inl later ↦ or_right _ _ (on_record-last_live payload key raw rows o later s e)
      | inr (l, q) ↦ or_left _ _ (
          is_record_lem payload key raw x l (ap (λ r. is_write_ahead r.status) q ∙ s)
            (ap (λ r. r.raw_tx) q ∙ e))
    ]

-- At most one transaction, and its write-ahead record is committed before.
abbrev pub Backed : ℕ → ℕ → Paid → Type 0
Backed payload key a =
    (length {A = ℕ} a.broadcast ≤ 1)
    × All (λ raw. on_record payload key raw a.ahead ≡ true) a.broadcast

Backed-quiet :
    (payload key : ℕ) (rows : List Distribution)
    → Backed payload key (record { rows = rows; ahead = rows; broadcast = [] })
Backed-quiet payload key rows = (omega arith, tt)

Backed-resend :
    (chain : PaidChain) (payload key : ℕ) (rows : List Distribution) (o : Distribution)
    (raw_tx : Option ℕ)
    → last_live payload key rows ≡ some o
    → is_write_ahead o.status ≡ true
    → o.raw_tx ≡ raw_tx
    → Backed payload key (resend chain rows o raw_tx)
Backed-resend chain payload key rows o none h s e = Backed-quiet payload key rows
Backed-resend chain payload key rows o (some raw) h s e =
    (omega arith, (on_record-last_live payload key raw rows o h s e, tt))

Backed-answer_repeat :
    (chain : PaidChain) (payload key : ℕ) (rows : List Distribution) (o : Distribution)
    (status : PaidStatus)
    → last_live payload key rows ≡ some o
    → o.status ≡ status
    → Backed payload key (answer_repeat chain rows o status)
Backed-answer_repeat chain payload key rows o PaidStatus.sending h s =
    Backed-resend chain payload key rows o o.raw_tx h (ap is_write_ahead s) refl
Backed-answer_repeat chain payload key rows o PaidStatus.sent h s = Backed-quiet payload key rows
Backed-answer_repeat chain payload key rows o PaidStatus.confirmed h s =
    Backed-quiet payload key rows
Backed-answer_repeat chain payload key rows o PaidStatus.failed h s = Backed-quiet payload key rows

Backed-answer_live :
    (chain : PaidChain) (payload key : ℕ) (rows : List Distribution) (live : Option Distribution)
    (otherwise : Paid)
    → last_live payload key rows ≡ live
    → Backed payload key otherwise
    → Backed payload key (answer_live chain rows live otherwise)
unfolding duplicate answer_live
Backed-answer_live chain payload key rows none otherwise e h = h
Backed-answer_live chain payload key rows (some o) otherwise e h =
    Backed-answer_repeat chain payload key rows o o.status e refl

own_live_lem :
    (r : Distribution)
    → is_live_status r.status ≡ true
    → is_live_of r.payload_hash r.idempotency_key r ≡ true
own_live_lem r h = ground (arith, h)

Backed-pay :
    (chain : PaidChain) (rows : List Distribution) (r : Distribution) (raw : ℕ)
    → r.status ≡ PaidStatus.sending
    → r.raw_tx ≡ some raw
    → Backed r.payload_hash r.idempotency_key (pay chain rows r raw)
unfolding pay
Backed-pay chain rows r raw s e =
    let own =
      is_record_lem _ _ raw r (own_live_lem r (ap is_live_status s)) (ap is_write_ahead s) e in
    (omega arith, (on_record-last r.payload_hash r.idempotency_key raw rows r own, tt))

Backed-commit :
    (chain : PaidChain) (resubmit_after now : ℕ) (rows : List Distribution) (r : Distribution)
    (raw : ℕ) (live : Option Distribution)
    → r.status ≡ PaidStatus.sending
    → r.raw_tx ≡ some raw
    → Backed r.payload_hash r.idempotency_key (commit chain resubmit_after now rows r raw live)
unfolding commit
Backed-commit chain resubmit_after now rows r raw none s e = Backed-pay chain rows r raw s e
Backed-commit chain resubmit_after now rows r raw (some other) s e =
    let again = map (refresh_of chain resubmit_after now r.payload_hash r.idempotency_key) rows in
    Backed-answer_live chain r.payload_hash r.idempotency_key again _ _ refl
      (Backed-quiet r.payload_hash r.idempotency_key again)

Backed-sign_and_insert :
    (chain : PaidChain) (resubmit_after now : ℕ) (p : Payment)
    (looked meanwhile : List Distribution)
    → Backed p.payload_hash p.idempotency_key
        (sign_and_insert chain resubmit_after now p looked meanwhile)
unfolding sign_and_insert insert_and_send new_row
Backed-sign_and_insert chain resubmit_after now p looked meanwhile =
    let nonce = next_nonce p looked in
    Backed-commit chain resubmit_after now (looked ++ meanwhile)
      (new_row p now nonce (p.sign nonce)) (p.sign nonce).0 _ refl refl

-- Whatever the node answers and whatever other instances insert meanwhile, a call of `distribute` broadcasts
-- at most one transaction, and these bytes stand in a live row of the payload and key, in status `sending`,
-- that is committed before.
pub distribute-Backed :
    (chain : PaidChain) (resubmit_after now : ℕ) (p : Payment) (rows meanwhile : List Distribution)
    → Backed p.payload_hash p.idempotency_key (distribute chain resubmit_after now p rows meanwhile)
unfolding distribute
distribute-Backed chain resubmit_after now p rows meanwhile =
    let looked = map (refresh_of chain resubmit_after now p.payload_hash p.idempotency_key) rows in
    Backed-answer_live chain p.payload_hash p.idempotency_key looked _ _ refl
      (Backed-sign_and_insert chain resubmit_after now p looked meanwhile)
