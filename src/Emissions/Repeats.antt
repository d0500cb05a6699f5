-- ===== src/Emissions/Repeats.antt =====
-- What a repeated distribution of backend/app/emissions/router.py does.
use over_under.Prelude.{
  ℕ, ◌≡◌, suc, refl, ap, ◌∙◌, Bool, true, false, Option, none, some, List, [], ◌∷◌, map, All,
  length, if◌then◌else◌,
}
use over_under.Emissions.{
  PaidStatus, Distribution, PaidChain, Paid, taken_by, last_live, mark_sent, resend, answer_repeat,
  duplicate, refresh_of, answer_live, distribute, Payment,
}

-- Nothing new is paid: the table is as long as before and only the stored bytes go out.
abbrev pub Repeated : List Distribution → Distribution → Paid → Type 0
Repeated rows o a =
    (length {A = Distribution} a.rows ≡ length rows) × All (λ raw. o.raw_tx ≡ some raw) a.broadcast

length-map :
    (f : Distribution → Distribution) (rows : List Distribution) → length (map f rows) ≡ length rows
length-map f [] = refl
length-map f (r ∷ rows) = ap suc (length-map f rows)

length-if :
    (b : Bool) (f : Distribution → Distribution) (rows : List Distribution)
    → length (if b then map f rows else rows) ≡ length rows
length-if true f rows = length-map f rows
length-if false f rows = refl

Repeated-resend :
    (chain : PaidChain) (rows : List Distribution) (o : Distribution) (raw_tx : Option ℕ)
    → o.raw_tx ≡ raw_tx
    → Repeated rows o (resend chain rows o raw_tx)
Repeated-resend chain rows o none e = (refl, tt)
Repeated-resend chain rows o (some raw) e =
    (length-if (taken_by (chain.send_raw raw)) (mark_sent o.id) rows, (e, tt))

Repeated-answer_repeat :
    (chain : PaidChain) (rows : List Distribution) (o : Distribution) (status : PaidStatus)
    → Repeated rows o (answer_repeat chain rows o status)
Repeated-answer_repeat chain rows o PaidStatus.sending = Repeated-resend chain rows o o.raw_tx refl
Repeated-answer_repeat chain rows o PaidStatus.sent = (refl, tt)
Repeated-answer_repeat chain rows o PaidStatus.confirmed = (refl, tt)
Repeated-answer_repeat chain rows o PaidStatus.failed = (refl, tt)

Repeated-answer_live :
    (chain : PaidChain) (rows : List Distribution) (live : Option Distribution) (o : Distribution)
    (otherwise : Paid)
    → live ≡ some o
    → Repeated rows o (answer_live chain rows live otherwise)
unfolding answer_live duplicate
Repeated-answer_live chain rows live o otherwise e =
    rw e (Repeated-answer_repeat chain rows o o.status)

-- When a live row of the payload and key is left after the look-up has read the chain, a call adds no row and
-- broadcasts nothing but the bytes stored in that row, whatever transaction it could have signed.
pub distribute-Repeated :
    (chain : PaidChain) (resubmit_after now : ℕ) (p : Payment) (rows meanwhile : List Distribution)
    (o : Distribution)
    → last_live p.payload_hash p.idempotency_key
        (map (refresh_of chain resubmit_after now p.payload_hash p.idempotency_key) rows)
      ≡ some o
    → (length (distribute chain resubmit_after now p rows meanwhile).rows ≡ length rows)
      × All
          (λ b. o.raw_tx ≡ some b)
          (distribute chain resubmit_after now p rows meanwhile).broadcast
unfolding distribute
distribute-Repeated chain resubmit_after now p rows meanwhile o e =
    let refresh = refresh_of chain resubmit_after now p.payload_hash p.idempotency_key in
    let (long, sent_again) = Repeated-answer_live chain (map refresh rows) _ o _ e in
    (long ∙ length-map refresh rows, sent_again)
