-- ===== src/Tests.antt =====
-- A small shop, on which the theorems are applied: one product, one buyer, one order.
mod Payments
mod Checkouts
mod Licensing
mod Limits
mod Games
mod Editors
use koviobe.Model.Errors.{no_faults}
use koviobe.Base.{ℕ, Text, codes, true, false, none, some, List, [], ◌∷◌, ◌^◌, ◌*◌}
use koviobe.Model.License.{
  PricingPlan, User, LicenseCode, Subscription, SubscriptionEvent, GrantContext, active,
  code_redeem, payment_sepay, plan_pro, grant,
}
use koviobe.Model.Payment.{
  PaymentProduct, PaymentOrder, BankTransaction, TxnStatus, pending, no_reason, unmatched,
}
use koviobe.Model.Config.{Config}
use koviobe.Model.Store.{Store}
use koviobe.License.Code.{Reader}
use koviobe.Payment.Reconcile.{Env}

abbrev pub clock : ℕ
clock = 10 ^ 18

abbrev pub digits : Reader
digits = 0 ∷ 0 ∷ 0 ∷ 0 ∷ 0 ∷ 0 ∷ 0 ∷ 0 ∷ 0 ∷ 0 ∷ 0 ∷ 0 ∷ []

abbrev pub pro_plan : PricingPlan
pro_plan = record {
  id = plan_pro;
  name = codes "Pro";
  max_players_per_room = 200;
  max_quizzes = 100;
  max_templates = 50;
  max_concurrent_rooms = 5;
  max_questions_per_quiz = 100;
  allow_player_paced = true;
  allow_custom_branding = true;
  allow_export_logs = true;
  allow_priority_support = false;
  allow_remove_watermark = true;
  allow_quiz_sharing = true;
  max_collaborators_per_quiz = 5;
  is_active = true;
}

abbrev pub free_plan : PricingPlan
free_plan = record pro_plan { id = codes "free"; name = codes "Free" }

abbrev pub pro_month : PaymentProduct
pro_month = record {
  id = codes "pro-30";
  plan_id = plan_pro;
  name = codes "Pro, 30 days";
  duration_days = 30;
  amount_vnd = 99000;
  is_active = true;
}

abbrev pub order_1 : PaymentOrder
order_1 = record {
  id = 1;
  order_code = codes "KVAB23CD45";
  user_id = 7;
  product_id = codes "pro-30";
  product_name = codes "Pro, 30 days";
  plan_id = plan_pro;
  duration_days = 30;
  amount_vnd = 99000;
  status = pending;
  review_reason = no_reason;
  expires_at = clock;
  paid_at = none;
  paid_amount_vnd = 0;
  external_ref = [];
  confirmed_by = none;
  license_code = [];
  note = [];
  created_at = clock;
}

abbrev pub transfer_1 : BankTransaction
transfer_1 = record {
  id = 1;
  provider = codes "sepay";
  provider_txn_id = codes "501";
  gateway = codes "MB";
  account_number = codes "0123";
  transfer_type = codes "in";
  detected_code = codes "KVAB23CD45";
  amount_vnd = 99000;
  content = codes "KVAB23CD45";
  description = [];
  reference_code = codes "FT9";
  transaction_date = clock;
  order_code = [];
  order_id = none;
  match_status = unmatched;
  note = [];
  handled_by = none;
  raw_payload = [];
}

abbrev pub buyer : User
buyer = record { id = 7; email = codes "an@example.vn" }

-- A code for 30 days of the plan, not redeemed.
abbrev pub code_1 : LicenseCode
code_1 = record {
  code = codes "KOVIO-3333-3333-3333";
  plan_id = plan_pro;
  duration_days = 30;
  max_uses = 1;
  used_count = 0;
  expires_at = none;
  revoked_at = none;
  batch = [];
  note = [];
  amount_vnd = 99000;
  external_ref = [];
  created_by = 0;
}

-- The order is open, no transfer has come.
abbrev pub shop : Store
shop = record {
  plans = free_plan ∷ pro_plan ∷ [];
  products = pro_month ∷ [];
  users = buyer ∷ [];
  orders = order_1 ∷ [];
  next_order = 2;
  txns = [];
  next_txn = 1;
  license_codes = code_1 ∷ [];
  redemptions = [];
  subscriptions = [];
  events = [];
}

abbrev pub shop_with_transfer : Store
shop_with_transfer = record shop { txns = transfer_1 ∷ []; next_txn = 2 }

abbrev pub no_context : GrantContext
no_context = record {
  source = payment_sepay;
  source_ref = [];
  amount_vnd = 0;
  external_ref = [];
  actor_user_id = 0;
  note = [];
  ip_address = [];
}

abbrev pub settings : Config
settings = record {
  payment_provider = codes "sepay";
  payment_bank_name = codes "MB";
  payment_bank_account = codes "0123";
  payment_qr_image_base = codes "https://qr";
  sepay_api_key = codes "k";
  sepay_api_token = codes "t";
  sepay_pg_merchant_id = [];
  sepay_pg_secret_key = [];
  sepay_pg_env = [];
  public_app_url = [];
  payment_max_orders_per_hour = 10;
  payment_cancel_alert_threshold = 5;
  max_players_per_room_open = 0;
  license_enforcement = false;
}

abbrev pub env_1 : ℕ → Env
env_1 _ = record { down = no_faults; now = clock; reader = digits }
