-- ===== src/Relayer/Preflight/Exchange.antt =====
-- The contract that a relayed match calls, contracts/src/Exchange.vy: `_validate` and `matchOrders`, and
-- `safeTransferFrom` of contracts/src/ConditionalTokens.vy. Sums and products are checked as Vyper
-- checks them, below 2 ^ 256. keccak and the precompile `ecrecover` are parameters, and USDC is one that
-- pays where its standard promises it.
use over_under.Prelude.{
  ℕ, ◌+◌, ◌-◌, ◌*◌, ◌/◌, ◌%◌, ◌^◌, ◌≤◌, ◌≡◌, Bool, true, not, ◌&&◌, List, [], ◌∷◌, ltb, leb, ◌==◌,
  same_flag, if◌then◌else◌, sum_by,
}
use over_under.Settings.{Domain}
use over_under.Db.{Order}
use over_under.Orders.Signing.{Crypto, word_of}
use over_under.Relayer.Preflight.{exchange_taker_fee_bps, match_volume, match_fee, Ledger}

-- The deployed contract: its hashes, its address and chain, and the precompile, which takes digest, v, r
-- and s.
pub record Exchange : Type 0 where
  pub crypto : Crypto
  pub domain : Domain
  pub ecrecover : ℕ → ℕ → ℕ → ℕ → ℕ

-- Whether USDC pays a list of amounts from an account to the Exchange's payees. `pays` holds where the
-- ERC-20 standard promises success.
pub record Usdc (l : Ledger) : Type 0 where
  pub pays : ℕ → List ℕ → Bool
  pub pays_covered :
      (payer : ℕ) (amounts : List ℕ)
      → sum_by (λ a. a) amounts ≤ l.usdc_balance payer
      → sum_by (λ a. a) amounts ≤ l.usdc_allowance payer
      → pays payer amounts ≡ true

-- A uint256 holds the number: checked arithmetic does not revert.
abbrev pub fits : ℕ → Bool
fits n = ltb n (2 ^ 256)

-- `_domain_separator`, `_struct_hash` and the digest of `hashOrder`.
unfoldable pub hash_order : Crypto → Domain → Order → ℕ
hash_order c d o =
    c.keccak_1901
      (c.keccak_words
        (c.domain_typehash ∷ c.name_hash ∷ c.version_hash ∷ d.chain_id ∷ d.exchange ∷ []))
      (c.keccak_words (
        c.order_typehash
        ∷ o.maker
        ∷ word_of o.is_buy
        ∷ o.condition_id
        ∷ o.outcome
        ∷ o.price
        ∷ o.amount
        ∷ o.salt
        ∷ o.nonce
        ∷ o.expiry
        ∷ []))

-- `_recover`, on the number of a signature's 65 bytes.
unfoldable pub recover_signer : Exchange → ℕ → ℕ → ℕ
recover_signer x digest sig =
    let v = sig % 2 ^ 8 in
    x.ecrecover digest (if ltb v 27 then v + 27 else v) (sig / 2 ^ 264) (sig / 2 ^ 8 % 2 ^ 256)

-- `_validate`, with the digest that it computes.
unfoldable pub validate : Exchange → Ledger → ℕ → Order → Bool
unfolding hash_order recover_signer
validate x l timestamp o =
    let digest = hash_order x.crypto x.domain o in
    not (o.maker == 0)
    && (ltb o.outcome 2
        && ((ltb 0 o.amount && ltb 0 o.price)
            && (leb timestamp o.expiry
                && (o.nonce == l.ex_nonce o.maker
                    && (not (l.ex_cancelled digest)
                        && recover_signer x digest o.signature == o.maker)))))

-- `safeTransferFrom` with the Exchange as sender; a position is a condition and an outcome.
unfoldable pub safe_transfer_from : Ledger → ℕ → ℕ → ℕ → ℕ → ℕ → Bool
safe_transfer_from l sender receiver cid outcome amount =
    not (receiver == 0)
    && (l.ctf_approved sender
        && (leb amount (l.ctf_balance sender cid outcome)
            && fits (l.ctf_balance receiver cid outcome + amount)))

-- `assert self.filled[h] + fillAmount <= amount`
abbrev pub has_room : Ledger → ℕ → ℕ → ℕ → Bool
has_room l h fill amount = fits (l.ex_filled h + fill) && leb (l.ex_filled h + fill) amount

-- The amounts that leave the buyer's account.
abbrev pub payments : Order → ℕ → ℕ → List ℕ
payments taker volume fee =
    (if taker.is_buy then volume else volume - fee) ∷ (if ltb 0 fee then fee ∷ [] else [])

-- The transfers of a match.
unfoldable pub transfers : (l : Ledger) → Usdc l → Order → Order → ℕ → ℕ → ℕ → Bool
unfolding safe_transfer_from
transfers l usdc taker maker fill volume fee =
    if taker.is_buy
    then usdc.pays taker.maker (payments taker volume fee)
      && safe_transfer_from l maker.maker taker.maker taker.condition_id taker.outcome fill
    else usdc.pays maker.maker (payments taker volume fee)
      && safe_transfer_from l taker.maker maker.maker taker.condition_id taker.outcome fill

-- `price_scale` and the basis points are the contract's too.
unfoldable pub match_orders : Exchange → (l : Ledger) → Usdc l → ℕ → Order → Order → ℕ → Bool
unfolding validate transfers hash_order
match_orders x l usdc timestamp taker maker fill =
    ltb 0 fill
    && (not (l.ctf_resolved taker.condition_id)
        && (taker.condition_id == maker.condition_id
            && (taker.outcome == maker.outcome
                && (not (same_flag taker.is_buy maker.is_buy)
                    && (price_crosses
                        && (validate x l timestamp taker
                            && (validate x l timestamp maker
                                && (has_room l (hash_order x.crypto x.domain taker) fill
                                      taker.amount
                                    && (has_room l (hash_order x.crypto x.domain maker) fill
                                          maker.amount
                                        && (fits (fill * maker.price)
                                            && (fits (volume * exchange_taker_fee_bps)
                                                && transfers l usdc taker maker fill volume (
                                                    match_fee volume
                                                      exchange_taker_fee_bps))))))))))))
  where
    price_crosses : Bool
    price_crosses =
        if taker.is_buy then leb maker.price taker.price else leb taker.price maker.price

    volume : ℕ
    volume = match_volume fill maker.price
