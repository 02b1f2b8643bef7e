-- ===== src/Model/Config.antt =====
-- The fields of internal/config/config.go that the modelled code reads.
use koviobe.Base.{ℕ, Text, Bool}

pub record Config : Type 0 where
  pub payment_provider : Text
  pub payment_bank_name : Text
  pub payment_bank_account : Text
  pub payment_qr_image_base : Text
  pub sepay_api_key : Text
  pub sepay_api_token : Text
  pub sepay_pg_merchant_id : Text
  pub sepay_pg_secret_key : Text
  pub sepay_pg_env : Text
  pub public_app_url : Text
  pub payment_max_orders_per_hour : ℕ
  pub payment_cancel_alert_threshold : ℕ
  pub max_players_per_room_open : ℕ
  pub license_enforcement : Bool
