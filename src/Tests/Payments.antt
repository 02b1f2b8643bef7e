-- ===== src/Tests/Payments.antt =====
-- The theorems on money, applied.
use koviobe.Payment.Clip.{clip}
use koviobe.Payment.Code.{
  order_code_candidates, find_all, match_code, add_code, add_codes, alphabet_run, find_first, holds,
  mem_text,
}
use koviobe.License.Code.{
  plan_active, random_payload, code_is, new_code, normalize_code, generate_codes, mint_loop,
  insert_new_code, random_text,
}
use koviobe.Base.{
  ◌≡◌, ◌⊎◌, inl, refl, codes, false, some, [], Result, ok, err, arith, ◌+◌, find, text_eq,
  trim_prefix, strip_prefix, keep, trim_space, is_space, to_upper, count, update_where, byte_len,
  rune_len, trim_left,
}
use koviobe.Model.Errors.{Error, db_error, no_faults}
use koviobe.Model.Payment.{BankTransaction}
use koviobe.Model.Store.{Store, transaction, committed}
use koviobe.Payment.Settle.{
  settle, Settled, order_code_options, review, save, set_txn, settle_exact, mark_paid, order_note,
  with_match,
}
use koviobe.Payment.Settle.Cases.{Paid, Withheld, settle_pays, settle_withholds}
use koviobe.Payment.Settle.Total.{CanMint, settle_total}
use koviobe.Payment.Sepay.{
  Outcome, already_recorded, apply_sepay, dismiss_transaction, known_reference, record_txn, place,
  find_candidate, order_is, same_id, same_transfer, sepay_ref,
}
use koviobe.Payment.Sepay.Replay.{Applied, apply_sepay-Applied}
use koviobe.Payment.History.{Later, at_once, then_step, delivers, dismisses, apply_sepay_once}
use koviobe.Tests.{
  clock, digits, order_1, transfer_1, shop, shop_with_transfer, no_context, settings, pro_plan,
}

abbrev settled_of : Result Error (Settled × Store) → Settled
settled_of (ok (z, s)) = z
settled_of (err _) = record {
  status = transfer_1.match_status;
  is_paid = false;
  txn = transfer_1;
  order = order_1;
}

abbrev store_of : {A : Type 0} → Result Error (A × Store) → Store
store_of (ok (a, s)) = s
store_of (err _) = shop

abbrev paid_run : Result Error (Settled × Store)
paid_run = settle no_faults clock digits transfer_1 order_1 no_context shop_with_transfer

settles : paid_run ≡ ok (settled_of paid_run, store_of paid_run)
unfolding settle settle_exact mark_paid generate_codes find text_eq mint_loop random_payload
    insert_new_code new_code normalize_code trim_prefix strip_prefix keep trim_space is_space
    to_upper save set_txn
settles = refl

settle_pays_example :
    Paid clock transfer_1 order_1 no_context shop_with_transfer
      (settled_of paid_run)
      (store_of paid_run)
settle_pays_example =
    settle_pays no_faults clock digits transfer_1 order_1 no_context shop_with_transfer
      (settled_of paid_run) (store_of paid_run) refl (inl refl) settles

-- A transfer of one đồng.
abbrev short_transfer : BankTransaction
short_transfer = record transfer_1 { amount_vnd = 1 }

abbrev short_run : Result Error (Settled × Store)
short_run = settle no_faults clock digits short_transfer order_1 no_context shop_with_transfer

withholds : short_run ≡ ok (settled_of short_run, store_of short_run)
unfolding settle review save set_txn
withholds = refl

settle_withholds_example :
    Withheld short_transfer order_1 shop_with_transfer (settled_of short_run) (store_of short_run)
settle_withholds_example =
    settle_withholds no_faults clock digits short_transfer order_1 no_context shop_with_transfer
      (settled_of short_run) (store_of short_run) (inl (λ p. omega (arith, p))) withholds

abbrev outcome_of : Result Error Outcome → Outcome
outcome_of (ok out) = out
outcome_of (err _) = already_recorded

abbrev delivery : Result Error Outcome × Store
delivery = apply_sepay no_faults clock digits (some settings) transfer_1 shop

delivers_new : delivery ≡ (ok (outcome_of delivery.0), delivery.1)
unfolding apply_sepay known_reference count transaction record_txn find place text_eq find_candidate
    order_code_candidates find_all keep is_space to_upper match_code strip_prefix add_code
    update_where byte_len rune_len trim_left trim_prefix trim_space code_is generate_codes
    insert_new_code mint_loop new_code normalize_code plan_active random_payload random_text
    committed clip add_codes alphabet_run find_first holds mem_text order_is same_id same_transfer
    sepay_ref mark_paid order_note review save set_txn settle settle_exact with_match
delivers_new = refl

delivers_once : (outcome_of delivery.0).duplicate ≡ false
unfolding apply_sepay known_reference count transaction record_txn find place text_eq find_candidate
    order_code_candidates find_all keep is_space to_upper match_code strip_prefix add_code
    update_where byte_len rune_len trim_left trim_prefix trim_space code_is generate_codes
    insert_new_code mint_loop new_code normalize_code plan_active random_payload random_text
    committed clip add_codes alphabet_run find_first holds mem_text order_is same_id same_transfer
    sepay_ref mark_paid order_note review save set_txn settle settle_exact with_match
delivers_once = refl

apply_sepay-Applied_example : Applied transfer_1 shop (outcome_of delivery.0) delivery.1
apply_sepay-Applied_example =
    apply_sepay-Applied no_faults clock digits (some settings) transfer_1 shop
      (outcome_of delivery.0) delivery.1 delivers_new

-- Between the two deliveries an admin tries to dismiss the transfer, and the webhook knocks again.
abbrev afterwards : Store
afterwards =
    (apply_sepay no_faults (clock + 1) [] (some settings) transfer_1
      (dismiss_transaction no_faults 1 1 (codes "n") delivery.1).1).1

time_passes : Later delivery.1 afterwards
time_passes = then_step (then_step at_once (dismisses no_faults 1 1 (codes "n") delivery.1)) (
    delivers no_faults (clock + 1) [] (some settings) transfer_1
      (dismiss_transaction no_faults 1 1 (codes "n") delivery.1).1)

apply_sepay_once_example :
    (apply_sepay no_faults (clock + 2) [] (some settings) transfer_1 afterwards
      ≡ (ok already_recorded, afterwards))
    ⊎ (apply_sepay no_faults (clock + 2) [] (some settings) transfer_1 afterwards
        ≡ (err db_error, afterwards))
apply_sepay_once_example =
    apply_sepay_once no_faults no_faults clock (clock + 2) digits [] (some settings) (some settings)
      transfer_1 shop (outcome_of delivery.0) delivery.1 afterwards delivers_new delivers_once
      time_passes

can_mint : CanMint digits (order_code_options order_1 99000 no_context) shop_with_transfer
unfolding find plan_active text_eq random_payload code_is new_code normalize_code trim_prefix
    strip_prefix keep trim_space is_space to_upper
can_mint = record {
  plan = pro_plan;
  on_sale = refl;
  not_free = refl;
  term = refl;
  payload = codes "222222222222";
  rest = [];
  drawn = refl;
  fresh = refl;
}

settle_total_example :
    (z : Settled) × (s' : Store) × (settle no_faults clock digits transfer_1 order_1 no_context
        shop_with_transfer
      ≡ ok (z, s'))
settle_total_example =
    settle_total clock digits transfer_1 order_1 no_context shop_with_transfer can_mint
