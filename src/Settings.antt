-- ===== src/Settings.antt =====
-- The settings that the modelled code reads (backend/app/config.py), and what they parse to.
use over_under.Prelude.{ℕ, Bool, true, false, Option, none, some}

-- `chain_id` is read through the configured domain. `relayer_poll_seconds` is the ceiling of the
-- source's float, the only form in which the modelled code reads it.
pub record Settings : Type 0 where
  pub trading_halt_at_close : Bool
  pub fee_bps_taker : ℕ
  pub relayer_enabled : Bool
  pub relayer_poll_seconds : ℕ
  pub relayer_batch_size : ℕ
  pub relayer_max_attempts : ℕ
  pub relayer_retry_backoff_seconds : ℕ
  pub relayer_resubmit_after_seconds : ℕ
  pub relayer_fee_bump_bps : ℕ
  pub relayer_max_fee_per_gas_wei : ℕ
  pub relayer_priority_fee_wei : ℕ
  pub relayer_gas_buffer_bps : ℕ
  pub relayer_gas_limit_cap : ℕ
  pub relayer_confirmations : ℕ
  pub relayer_min_expiry_seconds : ℕ
  pub relayer_preflight_on_post : Bool
  pub relayer_log_lookback_blocks : ℕ
  pub relayer_max_open_orders_per_maker : ℕ

-- The Exchange address and the chain id that sign an order (`get_exchange_domain`).
pub record Domain : Type 0 where
  pub exchange : ℕ
  pub chain_id : ℕ

-- A process: its settings, the account that its private key parses to (eth_account's answer, `none`
-- for an empty or bad key), and its Exchange domain.
pub record Deployment : Type 0 where
  pub settings : Settings
  pub account : Option ℕ
  pub domain : Option Domain

-- `relayer_ready`: enabled, a key that parses, a configured Exchange.
unfoldable pub relayer_ready : Deployment → Bool
relayer_ready d = elim d.settings.relayer_enabled [
  | false ↦ false
  | true ↦ elim d.account [ none ↦ false | some _ ↦ elim d.domain [ none ↦ false | some _ ↦ true ] ]
]

-- The class defaults of `Settings`, with the relayer switched on.
abbrev pub default_settings : Settings
default_settings = record {
  trading_halt_at_close = true;
  fee_bps_taker = 75;
  relayer_enabled = true;
  relayer_poll_seconds = 2;
  relayer_batch_size = 10;
  relayer_max_attempts = 5;
  relayer_retry_backoff_seconds = 15;
  relayer_resubmit_after_seconds = 60;
  relayer_fee_bump_bps = 1250;
  relayer_max_fee_per_gas_wei = 5_000_000_000;
  relayer_priority_fee_wei = 1_000_000;
  relayer_gas_buffer_bps = 2000;
  relayer_gas_limit_cap = 600_000;
  relayer_confirmations = 1;
  relayer_min_expiry_seconds = 60;
  relayer_preflight_on_post = true;
  relayer_log_lookback_blocks = 5_000;
  relayer_max_open_orders_per_maker = 100;
}
