-- ===== src/Emissions.antt =====
-- Distributions of OU emissions (backend/app/emissions/router.py): the records of the signed transactions
-- and the part of the route under the nonce lock. Estimates and fees come before it. The signer is a
-- parameter; a signer or a node that raises before the commit, and an instance that does not get the
-- leader's lock, leave nothing behind.
pub mod Once
pub mod Repeats
use over_under.Prelude.{
  ℕ, ◌+◌, ◌-◌, ◌≡◌, Bool, true, false, not, ◌&&◌, ◌||◌, Option, none, some, List, [], ◌∷◌, ◌++◌,
  map, ltb, leb, ◌==◌, if◌then◌else◌,
}
use over_under.Relayer.Nonce.{Cache, reserve, nonce_floor}

pub data PaidStatus : Type 0 where
  sending sent confirmed failed : PaidStatus

pub record Distribution : Type 0 where
  pub id : ℕ
  pub payload_hash : ℕ
  pub idempotency_key : ℕ
  pub sender : ℕ
  pub nonce : Option ℕ
  pub raw_tx : Option ℕ
  pub tx_hash : Option ℕ
  pub status : PaidStatus
  pub block_number : Option ℕ
  pub sent_at : ℕ

pub data ReceiptRead : Type 0 where
  unread absent : ReceiptRead
  mined : Bool → ℕ → ReceiptRead

-- What `send_raw` comes to: taken, or the kind of its error.
pub data SendAnswer : Type 0 where
  taken known underpriced nonce_low insufficient_funds reverts transient : SendAnswer

-- The node's answers, `none` where a call fails.
pub record PaidChain : Type 0 where
  pub receipt : ℕ → ReceiptRead
  pub latest_nonce : ℕ → Option ℕ
  pub send_raw : ℕ → SendAnswer

abbrev pub is_live_status : PaidStatus → Bool
is_live_status PaidStatus.failed = false
is_live_status _ = true

abbrev pub is_flying : PaidStatus → Bool
is_flying PaidStatus.sending = true
is_flying PaidStatus.sent = true
is_flying _ = false

abbrev pub of_payload : ℕ → ℕ → Distribution → Bool
of_payload payload key r = r.payload_hash == payload && r.idempotency_key == key

abbrev pub is_live_of : ℕ → ℕ → Distribution → Bool
is_live_of payload key r = of_payload payload key r && is_live_status r.status

abbrev pub past_nonce : Option ℕ → Option ℕ → Bool
past_nonce none own = false
past_nonce (some latest) none = false
past_nonce (some latest) (some n) = ltb n latest

abbrev pub has_number : Option ℕ → Bool
has_number none = false
has_number (some n) = true

abbrev pub by_receipt : PaidChain → ℕ → ℕ → Distribution → ReceiptRead → Distribution
by_receipt chain resubmit_after now r unread = r
by_receipt chain resubmit_after now r (mined ok block) = record r {
  block_number = some block;
  status = if ok then PaidStatus.confirmed else PaidStatus.failed;
}
by_receipt chain resubmit_after now r absent =
    if has_number r.nonce
      && leb resubmit_after (now - r.sent_at)
      && past_nonce (chain.latest_nonce r.sender) r.nonce
    then record r { status = PaidStatus.failed }
    else r

abbrev pub with_hash : PaidChain → ℕ → ℕ → Distribution → Option ℕ → Distribution
with_hash chain resubmit_after now r none = r
with_hash chain resubmit_after now r (some h) =
    by_receipt chain resubmit_after now r (chain.receipt h)

-- `_refresh`
unfoldable pub refresh_row : PaidChain → ℕ → ℕ → Distribution → Distribution
refresh_row chain resubmit_after now r =
    if is_flying r.status then with_hash chain resubmit_after now r r.tx_hash else r

abbrev pub refresh_of : PaidChain → ℕ → ℕ → ℕ → ℕ → Distribution → Distribution
refresh_of chain resubmit_after now payload key r =
    if is_live_of payload key r then refresh_row chain resubmit_after now r else r

abbrev pub last_or : Option Distribution → Distribution → Option Distribution
last_or none r = some r
last_or (some later) r = some later

-- The last live row of the payload and key, in the order of the ids.
unfoldable pub last_live : ℕ → ℕ → List Distribution → Option Distribution
last_live payload key [] = none
last_live payload key (r ∷ rows) =
    if is_live_of payload key r
    then last_or (last_live payload key rows) r
    else last_live payload key rows

-- What a call leaves: the rows, the rows that were committed before the last broadcast, and what was
-- broadcast.
pub record Paid : Type 0 where
  pub rows : List Distribution
  pub ahead : List Distribution
  pub broadcast : List ℕ

abbrev pub taken_by : SendAnswer → Bool
taken_by taken = true
taken_by known = true
taken_by underpriced = true
taken_by _ = false

abbrev pub mark_sent : ℕ → Distribution → Distribution
mark_sent id r = if r.id == id then record r { status = PaidStatus.sent } else r

abbrev pub resend : PaidChain → List Distribution → Distribution → Option ℕ → Paid
resend chain rows r none = record { rows = rows; ahead = rows; broadcast = [] }
resend chain rows r (some raw) = record {
  rows = if taken_by (chain.send_raw raw) then map (mark_sent r.id) rows else rows;
  ahead = rows;
  broadcast = raw ∷ [];
}

abbrev pub answer_repeat : PaidChain → List Distribution → Distribution → PaidStatus → Paid
answer_repeat chain rows r PaidStatus.sending = resend chain rows r r.raw_tx
answer_repeat chain rows r _ = record { rows = rows; ahead = rows; broadcast = [] }

-- `_duplicate`: only a write-ahead record is sent again, with the same bytes.
unfoldable pub duplicate : PaidChain → List Distribution → Distribution → Paid
duplicate chain rows r = answer_repeat chain rows r r.status

abbrev pub mined_well : PaidChain → Option ℕ → Bool
mined_well chain none = false
mined_well chain (some h) = elim (chain.receipt h) [ mined ok block ↦ ok | _ ↦ false ]

abbrev pub mined_block : PaidChain → Option ℕ → Option ℕ
mined_block chain none = none
mined_block chain (some h) = elim (chain.receipt h) [ mined ok block ↦ some block | _ ↦ none ]

abbrev pub is_failed_of : ℕ → ℕ → Distribution → Bool
is_failed_of payload key r = of_payload payload key r && not (is_live_status r.status)

-- `_mined_earlier`: the newest failed row of the payload whose transaction did mine is confirmed. The flag
-- says whether one has been found among the newer rows.
unfoldable pub mined_earlier : PaidChain → ℕ → ℕ → List Distribution → List Distribution × Bool
mined_earlier chain payload key [] = ([], false)
mined_earlier chain payload key (r ∷ rows) =
    let (rest, one) = mined_earlier chain payload key rows in
    if not one && is_failed_of payload key r && mined_well chain r.tx_hash
    then (
      record r { status = PaidStatus.confirmed; block_number = mined_block chain r.tx_hash } ∷ rest,
      true,
    )
    else (r ∷ rest, one)

-- The row's status when the node has answered.
abbrev pub status_after : SendAnswer → PaidStatus
status_after taken = PaidStatus.sent
status_after known = PaidStatus.sent
status_after transient = PaidStatus.sending
status_after _ = PaidStatus.failed

abbrev pub looks_back : SendAnswer → Bool
looks_back nonce_low = true
looks_back underpriced = true
looks_back _ = false

-- The rows when the node has answered for the new row, which stands last.
unfoldable pub after_answer :
    PaidChain → List Distribution → Distribution → SendAnswer → List Distribution
unfolding mined_earlier
after_answer chain rows r answer =
    let all_rows = rows ++ record r { status = status_after answer } ∷ [] in
    if looks_back answer
    then (mined_earlier chain r.payload_hash r.idempotency_key all_rows).0
    else all_rows

-- The new row is committed before its transaction is broadcast.
unfoldable pub pay : PaidChain → List Distribution → Distribution → ℕ → Paid
unfolding after_answer
pay chain rows r raw = record {
  rows = after_answer chain rows r (chain.send_raw raw);
  ahead = rows ++ r ∷ [];
  broadcast = raw ∷ [];
}

unfoldable pub answer_live : PaidChain → List Distribution → Option Distribution → Paid → Paid
unfolding duplicate
answer_live chain rows none otherwise = otherwise
answer_live chain rows (some r) otherwise = duplicate chain rows r

-- The unique index: an insert of a live row fails beside another.
unfoldable pub commit :
    PaidChain → ℕ → ℕ → List Distribution → Distribution → ℕ → Option Distribution → Paid
unfolding last_live
commit chain resubmit_after now rows r raw none = pay chain rows r raw
commit chain resubmit_after now rows r raw (some other) =
    let again = map (refresh_of chain resubmit_after now r.payload_hash r.idempotency_key) rows in
    answer_live chain again (last_live r.payload_hash r.idempotency_key again)
      (record { rows = again; ahead = again; broadcast = [] })

-- `rows` holds what other instances have committed meanwhile.
unfoldable pub insert_and_send : PaidChain → ℕ → ℕ → List Distribution → Distribution → ℕ → Paid
insert_and_send chain resubmit_after now rows r raw =
    commit chain resubmit_after now rows r raw (last_live r.payload_hash r.idempotency_key rows)

-- What the route holds of a request when it has the lock: the payload, the account with its nonce cache and
-- the node's pending count, the nonces of the account's relay jobs in flight, the next id, and the signer,
-- which answers a nonce with the transaction's bytes and hash.
pub record Payment : Type 0 where
  pub payload_hash : ℕ
  pub idempotency_key : ℕ
  pub sender : ℕ
  pub cache : Cache
  pub pending_nonce : ℕ
  pub job_nonces : List ℕ
  pub next_id : ℕ
  pub sign : ℕ → ℕ × ℕ

-- The nonces of the account's distributions in flight.
unfoldable pub paid_nonces : ℕ → List Distribution → List ℕ
paid_nonces sender [] = []
paid_nonces sender (r ∷ rows) =
    let rest = paid_nonces sender rows in
    elim r.nonce [
      | none ↦ rest
      | some n ↦ if is_flying r.status && r.sender == sender then n ∷ rest else rest
    ]

-- `await nm.reserve(await _nonce_floor(db, sender))`
unfoldable pub next_nonce : Payment → List Distribution → ℕ
unfolding reserve nonce_floor paid_nonces
next_nonce p rows =
    (reserve p.cache p.pending_nonce (nonce_floor (p.job_nonces ++ paid_nonces p.sender rows))).0

-- The write-ahead record of a signed transaction.
unfoldable pub new_row : Payment → ℕ → ℕ → ℕ × ℕ → Distribution
new_row p now nonce (raw, hash) = record {
  id = p.next_id;
  payload_hash = p.payload_hash;
  idempotency_key = p.idempotency_key;
  sender = p.sender;
  nonce = some nonce;
  raw_tx = some raw;
  tx_hash = some hash;
  status = PaidStatus.sending;
  block_number = none;
  sent_at = now;
}

-- `meanwhile` are the rows that other instances insert between the look-up and the commit.
unfoldable pub sign_and_insert :
    PaidChain → ℕ → ℕ → Payment → List Distribution → List Distribution → Paid
unfolding insert_and_send new_row next_nonce
sign_and_insert chain resubmit_after now p looked meanwhile =
    let nonce = next_nonce p looked in
    insert_and_send chain resubmit_after now (looked ++ meanwhile)
      (new_row p now nonce (p.sign nonce)) (p.sign nonce).0

-- The part of `distribute` under the nonce lock.
unfoldable pub distribute :
    PaidChain → ℕ → ℕ → Payment → List Distribution → List Distribution → Paid
unfolding sign_and_insert
distribute chain resubmit_after now p rows meanwhile =
    let looked = map (refresh_of chain resubmit_after now p.payload_hash p.idempotency_key) rows in
    answer_live chain looked (last_live p.payload_hash p.idempotency_key looked)
      (sign_and_insert chain resubmit_after now p looked meanwhile)
