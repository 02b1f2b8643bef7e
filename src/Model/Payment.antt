-- ===== src/Model/Payment.antt =====
-- internal/model/payment.go: products, orders and the ledger of bank transactions.
use koviobe.Base.{ℕ, Text, Bool, Option}

pub record PaymentProduct : Type 0 where
  pub id : Text
  pub plan_id : Text
  pub name : Text
  pub duration_days : ℕ
  pub amount_vnd : ℕ
  pub is_active : Bool

pub data OrderStatus : Type 0 where
  pending paid expired cancelled needs_review : OrderStatus

pub data ReviewReason : Type 0 where
  no_reason amount_mismatch late_payment customer_mismatch : ReviewReason

pub record PaymentOrder : Type 0 where
  pub id : ℕ
  pub order_code : Text
  pub user_id : ℕ
  pub product_id : Text
  pub product_name : Text
  pub plan_id : Text
  pub duration_days : ℕ
  pub amount_vnd : ℕ
  pub status : OrderStatus
  pub review_reason : ReviewReason
  pub expires_at : ℕ
  pub paid_at : Option ℕ
  pub paid_amount_vnd : ℕ
  pub external_ref : Text
  pub confirmed_by : Option ℕ
  pub license_code : Text
  pub note : Text
  pub created_at : ℕ

pub data TxnStatus : Type 0 where
  matched unmatched amount_mismatch duplicate_payment : TxnStatus
  needs_review ignored dismissed attached : TxnStatus

pub record BankTransaction : Type 0 where
  pub id : ℕ
  pub provider : Text
  pub provider_txn_id : Text
  pub gateway : Text
  pub account_number : Text
  pub transfer_type : Text
  pub detected_code : Text
  pub amount_vnd : ℕ
  pub content : Text
  pub description : Text
  pub reference_code : Text
  pub transaction_date : ℕ
  pub order_code : Text
  pub order_id : Option ℕ
  pub match_status : TxnStatus
  pub note : Text
  pub handled_by : Option ℕ
  pub raw_payload : Text
