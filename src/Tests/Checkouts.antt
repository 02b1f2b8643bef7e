-- ===== src/Tests/Checkouts.antt =====
-- The theorems on checkouts, notifications and the reconciliation, applied.
use koviobe.Payment.Clip.{clip}
use koviobe.Payment.Amount.{parse_vnd, all_zeros, split_dot}
use koviobe.License.Code.{
  random_text, generate_codes, mint_loop, random_payload, code_is, insert_new_code, new_code,
  normalize_code, plan_active,
}
use koviobe.Payment.Code.{
  add_code, add_codes, alphabet_run, find_all, find_first, holds, match_code, mem_text,
  order_code_candidates,
}
use koviobe.Payment.Settle.{
  save, set_txn, settle, settle_exact, mark_paid, order_note, review, with_match,
}
use koviobe.Base.{
  ℕ, ◌≡◌, ◌≤◌, ◌+◌, ◌==◌, refl, Text, codes, true, false, none, some, Option, [], ◌∷◌, Result, ok,
  err, length, update_where, trim_space, is_space, text_eq, to_decimal, find, to_upper, count,
  parse_int, parse_digits, byte_len, keep, rune_len, strip_prefix, trim_left, trim_prefix, to_lower,
  itoa, ◌⊎◌,
}
use koviobe.Model.Errors.{Error, db_error, no_faults}
use koviobe.Model.License.{LicenseCode}
use koviobe.Model.Payment.{PaymentOrder, OrderStatus, paid, customer_mismatch}
use koviobe.Model.Store.{Store, transaction, committed}
use koviobe.Payment.Sepay.{
  Outcome, already_recorded, lock_order, order_is, apply_sepay, known_reference, find_candidate,
  needs_human, place, record_txn, same_id, same_transfer, sepay_ref,
}
use koviobe.Payment.Orders.{ConfirmInput, create_order_once}
use koviobe.Payment.History.{at_once, then_step, notifies, apply_gateway_ipn_once}
use koviobe.Payment.Reconcile.Gateway.{GatewayOrderDetail}
use koviobe.Payment.Gateway.{
  apply_gateway_ipn, GatewayIpn, paid_problem, place_ipn, settle_invoice, misrouted_order,
  is_misrouted, ledger_row, find_invoice,
}
use koviobe.Payment.Gateway.Effect.{misrouted_twice}
use koviobe.Payment.Webhook.{SepayListTxn, to_transaction, to_webhook}
use koviobe.Payment.Reconcile.{
  Run, reconcile, reconcile_configured, reconcile_rows, is_passed_over, tally,
}
use koviobe.Payment.Reconcile.Accounts.{reconcile-Balanced, reconcile-counted}
use koviobe.Payment.Orders.{admin_confirm}
use koviobe.Tests.{clock, digits, order_1, transfer_1, shop, shop_with_transfer, settings, env_1}

-- The buyer comes back a second after the order ran out.
abbrev checkout : Result Error PaymentOrder × Store
checkout =
    create_order_once no_faults digits (some settings) (clock + 1) (clock + 2) 7 (codes "pro-30")
      shop

abbrev order_of : Result Error PaymentOrder → PaymentOrder
order_of (ok o) = o
order_of (err _) = order_1

abbrev captured : GatewayIpn
captured = record {
  notification_type = codes "ORDER_PAID";
  order_id = codes "O1";
  order_status = codes "CAPTURED";
  order_currency = codes "VND";
  order_amount = codes "99000.00";
  order_invoice_number = codes "KVAB23CD45";
  order_description = [];
  txn_id = codes "T1";
  payment_method = codes "QR";
  transaction_id = codes "T1";
  transaction_type = codes "PAYMENT";
  transaction_date = [];
  transaction_status = codes "APPROVED";
  transaction_amount = codes "99000";
  transaction_currency = codes "VND";
  customer_id = codes "7";
}

abbrev outcome_of : Result Error (Outcome × Store) → Outcome
outcome_of (ok (out, s)) = out
outcome_of (err _) = already_recorded

abbrev store_of : Result Error (Outcome × Store) → Store
store_of (ok (out, s)) = s
store_of (err _) = shop

-- An order that is paid, with its code, and a notification that echoes another buyer.
abbrev paid_order_1 : PaymentOrder
paid_order_1 = record order_1 { status = paid; license_code = codes "KOVIO-3333-3333-3333" }

abbrev paid_shop : Store
paid_shop = record shop_with_transfer { orders = paid_order_1 ∷ [] }

abbrev misrouted : GatewayIpn
misrouted = record captured { customer_id = codes "8" }

abbrev misrouted_run : Result Error (Outcome × Store)
misrouted_run = settle_invoice no_faults clock digits misrouted transfer_1 paid_order_1 paid_shop

misroutes : misrouted_run ≡ ok (outcome_of misrouted_run, store_of misrouted_run)
unfolding settle_invoice trim_space is_space text_eq to_decimal save set_txn
misroutes = refl

abbrev by_hand : ConfirmInput
by_hand = record {
  amount_vnd = 99000;
  external_ref = codes "r";
  note = codes "n";
  actor_user_id = 1;
}

abbrev confirmed : Result Error PaymentOrder × Store
confirmed =
    admin_confirm no_faults clock digits (codes "KVAB23CD45") by_hand (store_of misrouted_run)

confirms : confirmed ≡ (ok (order_of confirmed.0), confirmed.1)
unfolding admin_confirm trim_space is_space transaction lock_order find settle_invoice text_eq
    to_decimal save set_txn update_where order_is to_upper mark_paid generate_codes mint_loop
    random_payload byte_len keep rune_len strip_prefix trim_left trim_prefix code_is insert_new_code
    new_code normalize_code plan_active random_text committed clip order_note review settle
    settle_exact with_match
confirms = refl

is_other_buyer : is_misrouted misrouted paid_order_1 ≡ true
unfolding trim_space is_space text_eq to_decimal
is_other_buyer = refl

is_there :
    lock_order no_faults (codes "KVAB23CD45") (store_of misrouted_run)
    ≡ ok (misrouted_order paid_order_1, store_of misrouted_run)
unfolding lock_order find settle_invoice trim_space is_space text_eq to_decimal save set_txn
    update_where order_is to_upper
is_there = refl

misrouted_twice_example :
    ((store_of misrouted_run).orders
      ≡ update_where
          (λ r. r.id == 1)
          (λ _. record paid_order_1 {
            status = OrderStatus.needs_review;
            review_reason = customer_mismatch;
          })
          (paid_order_1 ∷ []))
    × ((store_of misrouted_run).license_codes ≡ paid_shop.license_codes)
    × ((order_of confirmed.0).id ≡ 1)
    × ((c : LicenseCode) × (confirmed.1.license_codes ≡ c ∷ paid_shop.license_codes)
        × ((order_of confirmed.0).license_code ≡ c.code))
misrouted_twice_example =
    misrouted_twice no_faults no_faults clock clock digits digits misrouted transfer_1 paid_order_1
      (order_of confirmed.0) paid_shop (store_of misrouted_run) confirmed.1
      (outcome_of misrouted_run) (codes "KVAB23CD45") by_hand is_other_buyer misroutes is_there
      confirms

abbrev list_row : SepayListTxn
list_row = record {
  id = 501;
  bank_brand_name = codes "MB";
  account_number = codes "0123";
  transaction_date = codes "d";
  amount_out = 0;
  amount_in = 99000;
  transaction_content = codes "KVAB23CD45";
  reference_number = codes "FT9";
  code = codes "KVAB23CD45";
  sub_account = [];
}

abbrev read_date : Text → Option ℕ
read_date _ = some 0

abbrev no_json : SepayListTxn → Text
no_json _ = []

-- SePay returns the same transfer twice.
abbrev pulled : Run
pulled =
    reconcile read_date no_json env_1 (some settings) (some (list_row ∷ list_row ∷ [])) 0 clock shop

reconcile-Balanced_example :
    (length pulled.store.license_codes ≡ length shop.license_codes + pulled.result.settled)
    × (pulled.result.settled ≤ pulled.result.recorded)
reconcile-Balanced_example =
    reconcile-Balanced read_date no_json env_1 (some settings) (some (list_row ∷ list_row ∷ [])) 0
      clock shop

runs_through : pulled.stopped ≡ none
unfolding reconcile reconcile_configured reconcile_rows is_passed_over text_eq to_transaction clip
    byte_len trim_space to_webhook is_space rune_len to_lower apply_sepay known_reference count
    transaction itoa to_decimal find update_where keep strip_prefix to_upper trim_left trim_prefix
    code_is generate_codes insert_new_code mint_loop new_code normalize_code plan_active
    random_payload random_text committed add_code add_codes alphabet_run find_all find_first holds
    match_code mem_text order_code_candidates tally find_candidate needs_human order_is place
    record_txn same_id same_transfer sepay_ref mark_paid order_note review save set_txn settle
    settle_exact with_match
runs_through = refl

reconcile-counted_example :
    (pulled.result.recorded + pulled.result.skipped ≡ 2)
    × (length pulled.store.txns ≡ length shop.txns + pulled.result.recorded)
reconcile-counted_example =
    reconcile-counted read_date no_json env_1 (some settings) (list_row ∷ list_row ∷ []) 0 clock
      shop runs_through

abbrev midnight : Text → ℕ
midnight _ = 0

abbrev first_notice : Result Error Outcome × Store
first_notice = apply_gateway_ipn no_faults clock digits midnight captured [] shop

abbrev outcome_in : Result Error Outcome → Outcome
outcome_in (ok out) = out
outcome_in (err _) = already_recorded

notice_arrives : first_notice ≡ (ok (outcome_in first_notice.0), first_notice.1)
unfolding apply_gateway_ipn ledger_row trim_space is_space transaction record_txn find find_invoice
    place_ipn text_eq paid_problem parse_vnd parse_int parse_digits order_is clip byte_len rune_len
    to_upper settle_invoice to_decimal settle settle_exact mark_paid generate_codes mint_loop
    random_payload insert_new_code new_code normalize_code trim_prefix strip_prefix keep
    update_where trim_left code_is plan_active random_text committed all_zeros split_dot same_id
    order_note review save set_txn with_match
notice_arrives = refl

notice_is_new : (outcome_in first_notice.0).duplicate ≡ false
unfolding apply_gateway_ipn ledger_row trim_space is_space transaction record_txn find find_invoice
    place_ipn text_eq paid_problem parse_vnd parse_int parse_digits order_is clip byte_len rune_len
    to_upper settle_invoice to_decimal settle settle_exact mark_paid generate_codes mint_loop
    random_payload insert_new_code new_code normalize_code trim_prefix strip_prefix keep
    update_where trim_left code_is plan_active random_text committed all_zeros split_dot same_id
    order_note review save set_txn with_match
notice_is_new = refl

-- Another notification comes between the two.
abbrev between : Store
between = (apply_gateway_ipn no_faults clock [] midnight misrouted [] first_notice.1).1

apply_gateway_ipn_once_example :
    (apply_gateway_ipn no_faults (clock + 1) [] midnight captured [] between
      ≡ (ok already_recorded, between))
    ⊎ (apply_gateway_ipn no_faults (clock + 1) [] midnight captured [] between
        ≡ (err db_error, between))
apply_gateway_ipn_once_example =
    apply_gateway_ipn_once no_faults no_faults clock (clock + 1) digits [] midnight midnight
      captured [] [] shop (outcome_in first_notice.0) first_notice.1 between notice_arrives
      notice_is_new
      (then_step at_once (notifies no_faults clock [] midnight misrouted [] first_notice.1))

-- The order API reports a captured order, whose approved payment names no amount.
abbrev captured_order : GatewayOrderDetail
captured_order = record {
  order_id = codes "O1";
  order_status = codes "CAPTURED";
  order_amount = codes "99000";
  customer_id = codes "7";
  transactions =
      record {
        payment_method = codes "QR";
        transaction_type = codes "PAYMENT";
        transaction_status = codes "APPROVED";
        transaction_amount = [];
        transaction_date = [];
      }
      ∷ [];
}
