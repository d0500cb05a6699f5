-- ===== src/Orders/Signing.antt =====
-- EIP-712 hashes of orders and their signers (backend/app/orderbook/eip712.py). keccak and the recovery
-- of a public key are parameters; ABI-encoded words are numbers.
use over_under.Prelude.{
  ℕ, zero, suc, ◌+◌, ◌-◌, ◌*◌, Bool, true, false, ◌||◌, Option, none, some, List, [], ◌∷◌, leb,
  ◌==◌, if◌then◌else◌, length,
}
use over_under.Text.{Text}
use over_under.Settings.{Domain}
use over_under.Db.{Order}

-- `keccak_1901` hashes the two words behind the bytes 0x19 0x01; `recover` takes digest, v, r and s.
pub record Crypto : Type 0 where
  pub keccak_text : Text → ℕ
  pub keccak_words : List ℕ → ℕ
  pub keccak_1901 : ℕ → ℕ → ℕ
  pub recover : ℕ → ℕ → ℕ → ℕ → Option ℕ
  pub domain_typehash : ℕ
  pub order_typehash : ℕ
  pub name_hash : ℕ
  pub version_hash : ℕ

abbrev pub word_of : Bool → ℕ
word_of true = 1
word_of false = 0

-- `int.from_bytes(..., "big")`, with the number that was read before.
abbrev pub from_bytes : ℕ → List ℕ → ℕ
from_bytes n [] = n
from_bytes n (b ∷ bytes) = from_bytes (n * 256 + b) bytes

abbrev pub first : ℕ → List ℕ → List ℕ
first zero bytes = []
first (suc n) [] = []
first (suc n) (b ∷ bytes) = b ∷ first n bytes

abbrev pub past : ℕ → List ℕ → List ℕ
past zero bytes = bytes
past (suc n) [] = []
past (suc n) (b ∷ bytes) = past n bytes

-- `_VALID_V`
abbrev pub valid_v : ℕ → Bool
valid_v v = v == 0 || v == 1 || v == 27 || v == 28

module _ (c : Crypto) where
  unfoldable pub domain_separator : Domain → ℕ
  domain_separator d =
      c.keccak_words
        (c.domain_typehash ∷ c.name_hash ∷ c.version_hash ∷ d.chain_id ∷ d.exchange ∷ [])

  unfoldable pub order_struct_hash : Order → ℕ
  order_struct_hash o = c.keccak_words (
      c.order_typehash
      ∷ o.maker
      ∷ word_of o.is_buy
      ∷ o.condition_id
      ∷ o.outcome
      ∷ o.price
      ∷ o.amount
      ∷ o.salt
      ∷ o.nonce
      ∷ o.expiry
      ∷ [])

  unfoldable pub order_digest : Order → Domain → ℕ
  unfolding domain_separator order_struct_hash
  order_digest o d = c.keccak_1901 (domain_separator d) (order_struct_hash o)

  -- The address that 65 bytes recover to.
  abbrev pub recover_65 : ℕ → List ℕ → ℕ → Option ℕ
  recover_65 digest raw v =
      if valid_v v
      then c.recover digest (if leb 27 v then v - 27 else v) (from_bytes 0 (first 32 raw))
          (from_bytes 0 (first 32 (past 32 raw)))
      else none

  -- `none` stands for the raised BadOrderSignature; so it does for a text that is no hex.
  unfoldable pub recover_order_signer : ℕ → Option (List ℕ) → Option ℕ
  recover_order_signer digest none = none
  recover_order_signer digest (some raw) =
      if length raw == 65 then recover_65 digest raw (from_bytes 0 (past 64 raw)) else none

  abbrev pub signed_by : Option ℕ → ℕ → Bool
  signed_by none maker = false
  signed_by (some signer) maker = signer == maker

  unfoldable pub verify_order_signature : Order → Option (List ℕ) → Domain → Bool
  unfolding order_digest recover_order_signer
  verify_order_signature o sig d = signed_by (recover_order_signer (order_digest o d) sig) o.maker
