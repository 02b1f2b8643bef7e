-- ===== src/Tests/Licensing.antt =====
-- The theorems on codes, plans and terms, applied.
use koviobe.License.Plans.{set_plan, record_event}
use koviobe.Base.{
  ℕ, ◌≡◌, ◌≢◌, ◌⊎◌, ◌↔◌, ◌<◌, ◌+◌, ◌*◌, ◌^◌, leb, refl, arith, Text, codes, true, none, some, List,
  [], ◌∷◌, Result, ok, err, if◌then◌else◌, text_eq, find, trim_prefix, strip_prefix, keep,
  trim_space, is_space, to_upper, update_where, trim_left,
}
use koviobe.Model.Errors.{Error, no_faults}
use koviobe.Model.License.{
  LicenseCode, Subscription, SubscriptionEvent, active, code_redeem, grant, plan_pro, plan_free,
}
use koviobe.Model.Store.{Store, transaction, committed}
use koviobe.License.Code.{
  GenerateOptions, generate_codes, mint_loop, normalize_code, random_payload, insert_new_code,
  new_code, plan_active, code_is,
}
use koviobe.License.Code.Minting.{IsBatch, generate_codes-IsBatch}
use koviobe.License.Term.{
  AssignOptions, compute_term, plan_rank, replaces_higher_live_term, day, classify_action,
}
use koviobe.License.Term.Renewal.{Tier, Runs, compute_term_renews, replaces_higher_live_term_iff}
use koviobe.License.Redeem.{redeem_tx, redeem_locked, check_code, record_redemption, count_use}
use koviobe.License.Redeem.Used.{
  Redeems, redeem_tx-Redeems, redeem_tx_once, at_once, then_step, claws,
}
use koviobe.License.ClawBack.{ClawOutcome, revoked, claw_back_one, should_claw_back, claw_locked}
use koviobe.License.ClawBack.Rule.{Takes, claw_back_one-fair}
use koviobe.Tests.{clock, digits, shop, no_context}

abbrev batch_of_one : GenerateOptions
batch_of_one = record {
  plan_id = plan_pro;
  count = 1;
  duration_days = 30;
  max_uses = 1;
  expires_at = none;
  batch = codes "b";
  note = [];
  amount_vnd = 0;
  external_ref = [];
  created_by = 0;
}

abbrev batch_run : Result Error (List LicenseCode × Store)
batch_run = generate_codes no_faults digits batch_of_one shop

abbrev codes_of : Result Error (List LicenseCode × Store) → List LicenseCode
codes_of (ok (cs, s)) = cs
codes_of (err _) = []

abbrev store_of : {A : Type 0} → Result Error (A × Store) → Store
store_of (ok (a, s)) = s
store_of (err _) = shop

mints : batch_run ≡ ok (codes_of batch_run, store_of batch_run)
unfolding generate_codes find text_eq mint_loop random_payload insert_new_code new_code
    normalize_code trim_prefix strip_prefix keep trim_space is_space to_upper
mints = refl

generate_codes-IsBatch_example : IsBatch batch_of_one shop (codes_of batch_run) (store_of batch_run)
generate_codes-IsBatch_example =
    generate_codes-IsBatch no_faults digits batch_of_one shop (codes_of batch_run)
      (store_of batch_run) mints

abbrev typed_code : Text
typed_code = codes "kovio 3333 3333 3333"

abbrev no_sub : Subscription
no_sub = record { user_id = 7; plan_id = plan_free; status = active; starts_at = 0; ends_at = none }

abbrev sub_in : Result Error Subscription → Subscription
sub_in (ok sub) = sub
sub_in (err _) = no_sub

abbrev redeem_run : Result Error Subscription × Store
redeem_run = redeem_tx no_faults clock 7 typed_code [] shop

redeems_code : redeem_run ≡ (ok (sub_in redeem_run.0), redeem_run.1)
unfolding redeem_tx transaction find code_is text_eq normalize_code trim_prefix strip_prefix keep
    trim_space is_space to_upper redeem_locked check_code plan_active replaces_higher_live_term
    record_redemption update_where trim_left record_event set_plan count_use classify_action
    compute_term plan_rank committed
redeems_code = refl

redeem_tx-Redeems_example :
    Redeems no_faults clock 7 typed_code [] shop (sub_in redeem_run.0) redeem_run.1
redeem_tx-Redeems_example =
    redeem_tx-Redeems no_faults clock 7 typed_code [] shop (sub_in redeem_run.0) redeem_run.1
      redeems_code

same_code : normalize_code (codes "KOVIO-3333-3333-3333") ≡ normalize_code typed_code
unfolding normalize_code trim_space is_space to_upper keep trim_prefix strip_prefix
same_code = refl

-- Between the two the code is revoked and the plan is taken back.
abbrev taken_back : Store
taken_back =
    (claw_back_one no_faults clock 7 (codes "KOVIO-3333-3333-3333") no_context redeem_run.1).1

redeem_tx_once_example :
    (e : Error) × (redeem_tx no_faults (clock + 9) 7 (codes "KOVIO-3333-3333-3333") [] taken_back
      ≡ (err e, taken_back))
redeem_tx_once_example =
    redeem_tx_once no_faults no_faults clock (clock + 9) 7 typed_code (codes "KOVIO-3333-3333-3333")
      [] [] shop (sub_in redeem_run.0) redeem_run.1 taken_back redeems_code
      (then_step at_once
        (claws no_faults clock 7 (codes "KOVIO-3333-3333-3333") no_context redeem_run.1))
      same_code

-- A buyer who holds the plan by the code, and by nothing since.
abbrev held : Subscription
held = record {
  user_id = 7;
  plan_id = plan_pro;
  status = active;
  starts_at = clock;
  ends_at = some (clock + 30 * day);
}

abbrev redemption_event : SubscriptionEvent
redemption_event = record {
  user_id = 7;
  email = [];
  action = grant;
  source = code_redeem;
  source_ref = codes "KOVIO-3333-3333-3333";
  previous_plan_id = [];
  plan_id = plan_pro;
  starts_at = clock;
  ends_at = some (clock + 30 * day);
  amount_vnd = 0;
  external_ref = [];
  actor_user_id = 7;
  note = [];
  ip_address = [];
}

abbrev held_shop : Store
held_shop = record shop { subscriptions = held ∷ []; events = redemption_event ∷ [] }

abbrev claw_run : ClawOutcome × Store
claw_run = claw_back_one no_faults clock 7 (codes "KOVIO-3333-3333-3333") no_context held_shop

claws_back : claw_run ≡ (revoked, claw_run.1)
unfolding claw_back_one should_claw_back find text_eq normalize_code trim_prefix strip_prefix keep
    trim_space is_space to_upper transaction claw_locked set_plan plan_active record_event
claws_back = refl

claw_back_one-fair_example :
    ((revoked ≡ revoked)
      × Takes no_faults clock 7 (codes "KOVIO-3333-3333-3333") held_shop claw_run.1)
    ⊎ ((revoked ≢ revoked) × (claw_run.1 ≡ held_shop))
claw_back_one-fair_example =
    claw_back_one-fair no_faults clock 7 (codes "KOVIO-3333-3333-3333") no_context held_shop revoked
      claw_run.1 claws_back

paid_plan : plan_pro ≢ plan_free
paid_plan = λ p. ground (arith, p)

abbrev a_month : AssignOptions
a_month = record { ends_at_days = some 30; extend = true }

-- A term that ended a day ago.
abbrev lapsed : Subscription
lapsed = record held { ends_at = some clock }

compute_term_renews_example :
    ((lapsed.ends_at ≡ none)
      × ((compute_term (clock + day) (some lapsed) plan_pro a_month).1 ≡ none))
    ⊎ ((e : ℕ) × (lapsed.ends_at ≡ some e)
        × ((compute_term (clock + day) (some lapsed) plan_pro a_month).1
            ≡ some ((if leb e (clock + day) then clock + day else e) + 30 * (24 * 3600 * 10 ^ 9))))
compute_term_renews_example = compute_term_renews (clock + day) 30 lapsed plan_pro paid_plan refl

replaces_higher_live_term_iff_example :
    (replaces_higher_live_term clock (some held) plan_free ≡ true) ↔ (
      (held.status ≡ active)
      × Runs clock held.ends_at
      × ((cur : ℕ) × (next : ℕ) × Tier held.plan_id cur × Tier plan_free next × (next < cur)))
replaces_higher_live_term_iff_example = replaces_higher_live_term_iff clock held plan_free
