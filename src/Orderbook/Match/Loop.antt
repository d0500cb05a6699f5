-- ===== src/Orderbook/Match/Loop.antt =====
-- The rule for the loop of `try_match`: what every way to end a maker's tries keeps, the loop keeps.
use over_under.Prelude.{ℕ, Bool, ◌||◌, List, [], ◌∷◌, All, inl, inr, Bool-cases, leb}
use over_under.Settings.{Settings}
use over_under.Db.{Order}
use over_under.Orderbook.Rows.{remaining}
use over_under.Orderbook.Match.{
  Try, filled, nothing, stopped, attempt, Matching, record_fill, after_try, match_makers,
}

module _ (s : Settings) (relay : Bool) (now : ℕ) where
  -- What holds once a maker's tries have ended and been recorded.
  abbrev pub Ends {κ} : (Matching → Type κ) → Matching → Order → Try → Type κ
  Ends P m maker (stopped incoming w) = P (record m { world = w; incoming = incoming })
  Ends P m maker (nothing incoming w) = P (record m { world = w; incoming = incoming })
  Ends P m maker (filled qty incoming w) = P (record_fill s relay now m maker qty w incoming)

  after_try_inv {κ} :
      (P : Matching → Type κ) (on : Matching → Matching)
      → ((m : Matching) → P m → P (on m))
      → (m : Matching) (maker : Order) (t : Try) → Ends P m maker t
      → P (after_try s relay now on m maker t)
  unfolding after_try
  after_try_inv P on keep m maker (stopped incoming w) h = h
  after_try_inv P on keep m maker (nothing incoming w) h =
      elim (Bool-cases (incoming.cancelled || leb (remaining incoming) 0)) [
        | inl e ↦ rw e h
        | inr e ↦ rw e (keep _ h)
      ]
  after_try_inv P on keep m maker (filled qty incoming w) h =
      elim (Bool-cases (leb (remaining incoming) 0)) [ inl e ↦ rw e h | inr e ↦ rw e (keep _ h) ]

  pub match_makers_inv {κ ι} :
      (P : Matching → Type κ) (Q : Order → Type ι)
      → ((m : Matching) (maker : Order)
          → P m
          → Q maker
          → Ends P m maker (attempt 2 m.world m.incoming maker))
      → (makers : List Order) (m : Matching) → All Q makers
      → P m
      → P (match_makers s relay now makers m)
  unfolding match_makers
  match_makers_inv P Q keep [] m q h = h
  match_makers_inv P Q keep (maker ∷ rest) m q h =
      after_try_inv P (match_makers s relay now rest)
        (λ m' h'. match_makers_inv P Q keep rest m' q.1 h') m maker
        (attempt 2 m.world m.incoming maker) (keep m maker h q.0)
