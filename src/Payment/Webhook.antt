-- ===== src/Payment/Webhook.antt =====
-- internal/pkg/payment/sepay.go and reconcile.go: a transfer as SePay reports it, by webhook or in its
-- list, and the ledger row made of it. The reading of a date in Vietnam's zone is an argument.
use koviobe.Base.{
  ℕ, Text, Option, none, some, [], codes, lower, trim_space, itoa, is_positive, if◌then◌else◌,
}
use koviobe.Model.Payment.{BankTransaction, unmatched}
use koviobe.Payment.Clip.{clip}

abbrev pub provider_sepay : Text
provider_sepay = codes "sepay"

pub record SepayWebhook : Type 0 where
  pub id : ℕ
  pub gateway : Text
  pub transaction_date : Text
  pub account_number : Text
  pub sub_account : Text
  pub code : Text
  pub content : Text
  pub transfer_type : Text
  pub description : Text
  pub transfer_amount : ℕ
  pub accumulated : ℕ
  pub reference_code : Text

abbrev date_or_now : ℕ → Option ℕ → ℕ
date_or_now now none = now
date_or_now now (some d) = d

-- SePayWebhook.Transaction.
unfoldable pub to_transaction : (Text → Option ℕ) → ℕ → SepayWebhook → Text → BankTransaction
to_transaction read_date now w raw = record {
  id = 0;
  provider = provider_sepay;
  provider_txn_id = itoa w.id;
  gateway = clip w.gateway 50;
  account_number = clip (trim_space w.account_number) 50;
  transfer_type = clip (lower (trim_space w.transfer_type)) 8;
  detected_code = clip (trim_space w.code) 32;
  amount_vnd = w.transfer_amount;
  content = clip w.content 500;
  description = clip w.description 500;
  reference_code = clip w.reference_code 64;
  transaction_date = date_or_now now (read_date (trim_space w.transaction_date));
  order_code = [];
  order_id = none;
  match_status = unmatched;
  note = [];
  handled_by = none;
  raw_payload = raw;
}

pub record SepayListTxn : Type 0 where
  pub id : ℕ
  pub bank_brand_name : Text
  pub account_number : Text
  pub transaction_date : Text
  pub amount_out : ℕ
  pub amount_in : ℕ
  pub transaction_content : Text
  pub reference_number : Text
  pub code : Text
  pub sub_account : Text

-- sepayListTxn.webhook: a row without incoming money is an outgoing one.
unfoldable pub to_webhook : SepayListTxn → SepayWebhook
to_webhook r = record {
  id = r.id;
  gateway = r.bank_brand_name;
  transaction_date = r.transaction_date;
  account_number = r.account_number;
  sub_account = r.sub_account;
  code = r.code;
  content = r.transaction_content;
  transfer_type = if is_positive r.amount_in then codes "in" else codes "out";
  description = [];
  transfer_amount = if is_positive r.amount_in then r.amount_in else r.amount_out;
  accumulated = 0;
  reference_code = r.reference_number;
}
