-- ===== src/Payment/Gateway.antt =====
-- internal/pkg/payment/gateway.go: the signed checkout form, and the notifications (IPN) of SePay's
-- payment gateway. The signature (HMAC-SHA256 in base64) and the reading of a date are arguments.
pub mod Ipn
pub mod Effect
pub mod Replay
use koviobe.Base.{
  ℕ, suc, Text, Bool, true, false, ◌&&◌, ◌||◌, not, Option, none, some, List, [], ◌∷◌, ◌++◌, codes,
  ◌==◌, if◌then◌else◌, is_empty, upper, text_eq, trim_space, find, to_decimal, itoa, Result, ok,
  err, ◌>>=◌, ◌>>◌, return, fail, guard, gets,
}
use koviobe.Model.Errors.{Error, Faults, find_order, db_error, ipn_invalid}
use koviobe.Model.License.{payment_gateway}
use koviobe.Model.Payment.{
  PaymentOrder, OrderStatus, ReviewReason, BankTransaction, TxnStatus, unmatched, ignored,
  customer_mismatch,
}
use koviobe.Model.Config.{Config}
use koviobe.Model.Store.{Store, Db, stmt, transaction}
use koviobe.License.Code.{Reader}
use koviobe.Payment.Clip.{clip}
use koviobe.Payment.Amount.{parse_vnd}
use koviobe.Payment.Settle.{settle, set_txn, save}
use koviobe.Payment.Sepay.{
  Outcome, already_recorded, only_status, of_settled, record_txn, order_is, grant_context,
}

abbrev pub provider_sepay_pg : Text
provider_sepay_pg = codes "sepay_pg"

unfoldable pub gateway_checkout_url : Option Config → Text
gateway_checkout_url none = codes "https://pay-sandbox.sepay.vn/v1/checkout/init"
gateway_checkout_url (some c) =
    if text_eq c.sepay_pg_env (codes "production")
    then codes "https://pay.sepay.vn/v1/checkout/init"
    else codes "https://pay-sandbox.sepay.vn/v1/checkout/init"

pub record FormField : Type 0 where
  pub name : Text
  pub value : Text

pub record GatewayForm : Type 0 where
  pub action : Text
  pub fields : List FormField

-- The body of signGatewayFields that is signed: "k=v,k=v,…".
unfoldable pub signed_text : List FormField → Text
signed_text [] = []
signed_text (f ∷ []) = f.name ++ b'=' ∷ f.value
signed_text (f ∷ g ∷ fs) = (f.name ++ b'=' ∷ f.value) ++ b',' ∷ signed_text (g ∷ fs)

abbrev pub return_url : Config → PaymentOrder → Text → Text
return_url c o result =
    c.public_app_url ++ codes "/pricing?order=" ++ o.order_code ++ codes "&result=" ++ result

-- The values of the form, in the order of gatewayFields; payment_method is left out.
abbrev pub form_values : Config → PaymentOrder → List FormField
form_values c o =
    record { name = codes "order_amount"; value = itoa o.amount_vnd }
    ∷ record { name = codes "merchant"; value = c.sepay_pg_merchant_id }
    ∷ record { name = codes "currency"; value = codes "VND" }
    ∷ record { name = codes "operation"; value = codes "PURCHASE" }
    ∷ record {
      name = codes "order_description";
      value = clip (codes "Quizzzone " ++ o.product_name ++ codes " " ++ o.order_code) 255;
    }
    ∷ record { name = codes "order_invoice_number"; value = o.order_code }
    ∷ record { name = codes "customer_id"; value = to_decimal o.user_id }
    ∷ record { name = codes "success_url"; value = return_url c o (codes "success") }
    ∷ record { name = codes "error_url"; value = return_url c o (codes "error") }
    ∷ record { name = codes "cancel_url"; value = return_url c o (codes "cancel") }
    ∷ []

unfoldable pub with_value : List FormField → List FormField
with_value [] = []
with_value (f ∷ fs) = let rest = with_value fs in if is_empty f.value then rest else f ∷ rest

unfoldable pub gateway_form_for :
    (Text → Text → Text) → Option Config → PaymentOrder → Option GatewayForm
unfolding with_value
gateway_form_for sign none o = none
gateway_form_for sign (some c) o =
    let fields = with_value (form_values c o) in
    some (record {
      action = gateway_checkout_url (some c);
      fields =
          fields
          ++ record {
            name = codes "signature";
            value = sign c.sepay_pg_secret_key (signed_text fields);
          }
            ∷ [];
    })

pub record GatewayIpn : Type 0 where
  pub notification_type : Text
  pub order_id : Text
  pub order_status : Text
  pub order_currency : Text
  pub order_amount : Text
  pub order_invoice_number : Text
  pub order_description : Text
  pub txn_id : Text
  pub payment_method : Text
  pub transaction_id : Text
  pub transaction_type : Text
  pub transaction_date : Text
  pub transaction_status : Text
  pub transaction_amount : Text
  pub transaction_currency : Text
  pub customer_id : Text

abbrev pub is_order_paid : GatewayIpn → Bool
is_order_paid n = text_eq n.notification_type (codes "ORDER_PAID")

abbrev pub is_void : GatewayIpn → Bool
is_void n = text_eq n.notification_type (codes "TRANSACTION_VOID")

-- The transaction's amount, or the order's where the transaction has none.
abbrev pub amount_text : GatewayIpn → Text
amount_text n =
    if is_empty (trim_space n.transaction_amount) then n.order_amount else n.transaction_amount

abbrev pub txn_key : GatewayIpn → Text
txn_key n =
    if is_empty (trim_space n.txn_id) then trim_space n.transaction_id else trim_space n.txn_id

abbrev pub or_zero : Option ℕ → ℕ
or_zero none = 0
or_zero (some n) = n

abbrev pub describe_ipn : GatewayIpn → Text
describe_ipn n =
    n.notification_type
    ++ codes " order="
    ++ n.order_id
    ++ codes " status="
    ++ n.order_status
    ++ codes " txn="
    ++ n.transaction_type
    ++ codes "/"
    ++ n.transaction_status
    ++ codes "/"
    ++ n.transaction_currency
    ++ codes " "
    ++ amount_text n

-- GatewayIPN.LedgerRow: none is ErrIPNInvalid. `when` reads a date, or gives the clock.
unfoldable pub ledger_row : (Text → ℕ) → GatewayIpn → Text → Option BankTransaction
ledger_row when n raw =
    let invoice = upper (trim_space n.order_invoice_number) in
    if is_empty (txn_key n) || is_empty invoice
    then none
    else some (record {
      id = 0;
      provider = provider_sepay_pg;
      provider_txn_id = clip (if is_void n then txn_key n ++ codes ":void" else txn_key n) 64;
      gateway = clip (codes "SePay PG " ++ n.payment_method) 50;
      account_number = [];
      transfer_type = if is_void n then codes "void" else codes "in";
      detected_code = clip invoice 32;
      amount_vnd = or_zero (parse_vnd (amount_text n));
      content = clip n.order_description 500;
      description = clip (describe_ipn n) 500;
      reference_code = clip n.transaction_id 64;
      transaction_date = when (trim_space n.transaction_date);
      order_code = [];
      order_id = none;
      match_status = unmatched;
      note = [];
      handled_by = none;
      raw_payload = raw;
    })

abbrev pub is_other : Text → Text → Bool
is_other t expected = not (is_empty t) && not (text_eq t expected)

abbrev pub currency_of : GatewayIpn → Text
currency_of n = if is_empty n.transaction_currency then n.order_currency else n.transaction_currency

abbrev pub amount_problem : GatewayIpn → Option ℕ → Text
amount_problem n none = codes "amount " ++ amount_text n
amount_problem n (some _) = []

-- GatewayIPN.paidProblem: why the notification does not describe money that can be settled.
unfoldable pub paid_problem : GatewayIpn → Text
paid_problem n =
    if not (text_eq n.order_status (codes "CAPTURED"))
    then codes "order_status " ++ n.order_status
    else if is_other n.transaction_status (codes "APPROVED")
    then codes "transaction_status " ++ n.transaction_status
    else if is_other n.transaction_type (codes "PAYMENT")
    then codes "transaction_type " ++ n.transaction_type
    else if is_other (currency_of n) (codes "VND")
    then codes "currency " ++ currency_of n
    else amount_problem n (parse_vnd (amount_text n))

-- The order with the row's code; an error other than a missing row ends the handler.
unfoldable pub find_invoice : Faults → Text → Db (Option PaymentOrder)
find_invoice down code = do stmt down (find_order code); gets (λ s. find (order_is code) s.orders)

abbrev pub misrouted_order : PaymentOrder → PaymentOrder
misrouted_order o = record o {
  status = OrderStatus.needs_review;
  review_reason = customer_mismatch;
}

abbrev pub gateway_ref : GatewayIpn → Text
gateway_ref n = clip (codes "sepay_pg:" ++ n.order_id ++ codes " txn:" ++ n.transaction_id) 120

abbrev pub with_order : TxnStatus → Option PaymentOrder → Outcome
with_order st o = record { duplicate = false; status = some st; order = o; is_paid = false }

-- The buyer whom SePay echoes back is not the order's.
abbrev pub is_misrouted : GatewayIpn → PaymentOrder → Bool
is_misrouted n o = is_other (trim_space n.customer_id) (to_decimal o.user_id)

unfoldable pub settle_invoice :
    Faults → ℕ → Reader → GatewayIpn → BankTransaction → PaymentOrder → Db Outcome
settle_invoice down now r n t o =
    if is_misrouted n o
    then (do
      save down (misrouted_order o)
      set_txn down t TxnStatus.needs_review (some (misrouted_order o))
            (clip (codes "customer_id " ++ trim_space n.customer_id ++ codes " != order owner") 255)
          >>= λ _. return (with_order TxnStatus.needs_review (some (misrouted_order o))))
    else (settle down now r t o (grant_context payment_gateway (gateway_ref n) 0 []) >>= λ z.
        return (of_settled z))

abbrev pub settle_paid :
    Faults → ℕ → Reader → GatewayIpn → BankTransaction → Option PaymentOrder → Db Outcome
settle_paid down now r n t none =
    set_txn down t unmatched none [] >>= λ _. return (only_status unmatched)
settle_paid down now r n t (some o) = settle_invoice down now r n t o

-- The switch on the notification's type, for a recorded row.
unfoldable pub place_ipn :
    Faults → ℕ → Reader → GatewayIpn → BankTransaction → Option PaymentOrder → Db Outcome
place_ipn down now r n t order =
    if is_order_paid n
    then (if is_empty (paid_problem n)
        then settle_paid down now r n t order
        else (set_txn down t ignored none (clip (paid_problem n) 255) >>= λ _.
            return (only_status ignored)))
    else if is_void n
    then (set_txn down t TxnStatus.needs_review order (codes "gateway reported TRANSACTION_VOID")
        >>= λ _. return (with_order TxnStatus.needs_review order))
    else (set_txn down t ignored none (clip (codes "notification_type " ++ n.notification_type) 255)
        >>= λ _. return (only_status ignored))

abbrev pub place_new_ipn : Faults → ℕ → Reader → GatewayIpn → Option BankTransaction → Db Outcome
place_new_ipn down now r n none = return already_recorded
place_new_ipn down now r n (some t) = find_invoice down t.detected_code >>= place_ipn down now r n t

unfoldable pub apply_gateway_ipn :
    Faults → ℕ → Reader → (Text → ℕ) → GatewayIpn → Text → Store → Result Error Outcome × Store
apply_gateway_ipn down now r when n raw s = elim (ledger_row when n raw) [
  | none ↦ (err ipn_invalid, s)
  | some t ↦ transaction down (record_txn down t >>= place_new_ipn down now r n) s
]
