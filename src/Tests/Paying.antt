-- ===== src/Tests/Paying.antt =====
-- A distribution that is paid, and its repeat.
use over_under.Prelude.{◌+◌, ◌≡◌, refl, none, some, [], ◌∷◌, All, length}
use over_under.Emissions.{
  PaidStatus, Distribution, ReceiptRead, SendAnswer, PaidChain, distribute, last_live, refresh_row,
  answer_live, duplicate, Payment, commit, pay,
}
use over_under.Emissions.Once.{distribute-Backed, Backed}
use over_under.Emissions.Repeats.{distribute-Repeated}

abbrev paid_row : Distribution
paid_row = record {
  id = 1;
  payload_hash = 70;
  idempotency_key = 5;
  sender = 13;
  nonce = some 4;
  raw_tx = some 900;
  tx_hash = some 901;
  status = PaidStatus.sending;
  block_number = none;
  sent_at = 100;
}

-- The request of that row, by an account whose relay jobs hold nonce 3, and its repeat.
abbrev payment : Payment
payment = record {
  payload_hash = 70;
  idempotency_key = 5;
  sender = 13;
  cache = none;
  pending_nonce = 3;
  job_nonces = 3 ∷ [];
  next_id = 1;
  sign = λ nonce. (nonce + 896, nonce + 897);
}

abbrev repeated : Payment
repeated = record payment { cache = some 5; next_id = 2 }

abbrev paid_chain : PaidChain
paid_chain = record {
  receipt = λ h. ReceiptRead.absent;
  latest_nonce = λ a. some 4;
  send_raw = λ raw. SendAnswer.taken;
}

distribute-Backed_example : Backed 70 5 (distribute paid_chain 60 120 payment [] [])
distribute-Backed_example = distribute-Backed paid_chain 60 120 payment [] []

distribute-Repeated_example :
    (length (distribute paid_chain 60 120 repeated (paid_row ∷ []) []).rows ≡ 1)
    × All
        (λ b. some 900 ≡ some b)
        (distribute paid_chain 60 120 repeated (paid_row ∷ []) []).broadcast
unfolding last_live refresh_row
distribute-Repeated_example =
    distribute-Repeated paid_chain 60 120 repeated (paid_row ∷ []) [] paid_row refl

-- The first broadcast was lost: the repeat sends the same bytes.
same_bytes : (distribute paid_chain 60 120 repeated (paid_row ∷ []) []).broadcast ≡ 900 ∷ []
unfolding distribute answer_live duplicate last_live refresh_row
same_bytes = refl

-- The row that is on record when the bytes go out.
recorded : (distribute paid_chain 60 100 payment [] []).ahead ≡ paid_row ∷ []
unfolding distribute answer_live last_live commit pay
recorded = refl
