-- ===== src/License/Redeem/Used.antt =====
-- What RedeemCode does when it succeeds, and that it succeeds once for a user.
use koviobe.Base.{
  ℕ, ◌≡◌, ◌≢◌, ◌⊎◌, ◌<◌, ◌≤◌, ◌^◌, Option, add_int, is_positive, inl, inr, Text, true, false, none,
  some, List, ◌∷◌, find, find_sound, update_where, ok, err, arith, Result-cases, Option-cases,
  Bool-cases, text_eq_iff, ==_iff, text_eq, ap, sym, ◌∙◌, Bool,
}
use koviobe.Model.Errors.{Error, Faults}
use koviobe.Model.License.{
  LicenseCode, Subscription, code_redeem, SubscriptionEvent, active, LicenseRedemption,
  GrantContext,
}
use koviobe.Model.Store.{Store}
use koviobe.Model.Rollback.{transaction-ok, transaction-cases}
use koviobe.License.Code.{normalize_code, code_is, plan_active}
use koviobe.License.Term.{replaces_higher_live_term, compute_term}
use koviobe.License.Plans.{read_sub, granted, sub_of, set_plan}
use koviobe.License.Plans.Granted.{Grants, set_plan-Grants}
use koviobe.License.ClawBack.{claw_back_one}
use koviobe.License.ClawBack.Rule.{claw_back_one-redemptions}
use koviobe.License.Redeem.{
  is_set, stale, exhausted, redemption_of, redemption, record_redemption, use_one, count_use,
  redeem_options, redeem_context, check_code, redeem_locked, redeem_tx, redeem_body,
}

-- A code that may be used now, by a user whose plan it does not lower.
pub record Usable (down : Faults) (now user : ℕ) (c : LicenseCode) (s : Store) : Type 0 where
  pub unrevoked : is_set c.revoked_at ≡ false
  pub in_time : stale now c.expires_at ≡ false
  pub spare : exhausted c ≡ false
  pub no_downgrade : replaces_higher_live_term now (read_sub down user s) c.plan_id ≡ false

check_code-Usable :
    (down : Faults) (now user : ℕ) (c : LicenseCode) (s s' : Store)
    → check_code down now user c s ≡ ok (tt, s')
    → Usable down now user c s × (s' ≡ s)
unfolding check_code
check_code-Usable down now user c s s' h =
    elim (Option-cases (find (plan_active c.plan_id) s.plans)) [
      | inl p ↦ absurd (ground (arith, p, h))
      | inr (q, p) ↦ elim (Bool-cases (exhausted c)) [
        | inl e ↦ absurd (ground (arith, p, e, h))
        | inr e ↦ (
          record {
            unrevoked = ground (arith, p, e, h);
            in_time = ground (arith, p, e, h);
            spare = e;
            no_downgrade = ground (arith, p, e, h);
          },
          ground (arith, p, e, h),
        )
      ]
    ]

record_redemption-new :
    (down : Faults) (c : LicenseCode) (user : ℕ) (ip : Text) (s s' : Store)
    → record_redemption down c user ip s ≡ ok (tt, s')
    → (find (redemption_of c.code user) s.redemptions ≡ none)
      × (s' ≡ record s { redemptions = redemption c user ip ∷ s.redemptions })
unfolding record_redemption
record_redemption-new down c user ip s s' h = (ground (arith, h), ground (arith, h))

-- The term that a code gives: its days, added by the rules for a renewal, or a lifetime for a code
-- whose number of days is not positive.
abbrev pub TermGiven : ℕ → Option Subscription → LicenseCode → Subscription → Type 0
TermGiven now current code sub =
    ((0 < code.duration_days)
      × (code.duration_days < 2 ^ 63)
      × ((sub.starts_at, sub.ends_at)
          ≡ compute_term now current code.plan_id
              (record { ends_at_days = some code.duration_days; extend = true })))
    ⊎ (((code.duration_days ≡ 0) ⊎ (2 ^ 63 ≤ code.duration_days))
        × ((sub.starts_at, sub.ends_at)
            ≡ compute_term now current code.plan_id
                (record { ends_at_days = none; extend = true })))

not_positive : (n : ℕ) → is_positive n ≡ false → (n ≡ 0) ⊎ (2 ^ 63 ≤ n)
not_positive n h = ground (arith, h)

granted-TermGiven :
    (now user : ℕ) (current : Option Subscription) (code : LicenseCode) (sub : Subscription)
    → sub ≡ granted now user current code.plan_id (redeem_options code)
    → TermGiven now current code sub
granted-TermGiven now user current code sub e = elim (Bool-cases (is_positive code.duration_days)) [
  | inl p ↦ inl (ground (arith, p), ground (arith, p), ground (arith, p, e))
  | inr p ↦ inr (not_positive code.duration_days p, ground (arith, p, e))
]

-- A redemption: the code stood in the table and could be used, the user had not redeemed it, one use
-- of it is counted, and the user's row is what the term rules say, under one event for the code.
pub record Redeems (down : Faults) (now user : ℕ) (raw ip : Text) (s : Store) (sub : Subscription)
    (s' : Store) : Type 0 where
  pub code : LicenseCode
  pub found : find (code_is (normalize_code raw)) s.license_codes ≡ some code
  pub usable : Usable down now user code s
  pub first : find (redemption_of code.code user) s.redemptions ≡ none
  pub redemptions_after :
      s'.redemptions
      ≡ record { code = code.code; user_id = user; plan_id = code.plan_id; ip_address = ip }
        ∷ s.redemptions
  pub codes_after :
      s'.license_codes
      ≡ update_where
          (code_is code.code)
          (λ c. record c { used_count = add_int c.used_count 1 })
          s.license_codes
  pub holder : sub.user_id ≡ user
  pub plan : sub.plan_id ≡ code.plan_id
  pub live : sub.status ≡ active
  pub term : TermGiven now (read_sub down user s) code sub
  pub current : sub_of user s' ≡ some sub
  pub filed : SubscriptionEvent
  pub events_after : s'.events ≡ filed ∷ s.events
  pub of_source : filed.source ≡ code_redeem
  pub of_code : filed.source_ref ≡ code.code

abbrev redeemed_store : LicenseCode → ℕ → Text → Store → Store
redeemed_store c user ip s = record s {
  redemptions = redemption c user ip ∷ s.redemptions;
  license_codes = update_where (code_is c.code) use_one s.license_codes;
}

redeem_locked-run :
    (down : Faults) (now user : ℕ) (ip : Text) (c : LicenseCode) (s : Store) (sub : Subscription)
    (s' : Store)
    → redeem_locked down now user ip c s ≡ ok (sub, s')
    → Usable down now user c s
      × (find (redemption_of c.code user) s.redemptions ≡ none)
      × (set_plan down now user c.plan_id
            (redeem_options c)
            (redeem_context c user ip)
            (redeemed_store c user ip s)
          ≡ ok (sub, s'))
unfolding redeem_locked count_use
redeem_locked-run down now user ip c s sub s' h =
    elim (Result-cases (check_code down now user c s)) [
      | inl (e, p) ↦ absurd (ground (arith, p, h))
      | inr ((tt, s₁), p) ↦ elim (Result-cases (record_redemption down c user ip s)) [
        | inl (e, q) ↦
            absurd (ground (arith, p, q, h, (check_code-Usable down now user c s s₁ p).1))
        | inr ((tt, s₂), q) ↦ (
          (check_code-Usable down now user c s s₁ p).0,
          (record_redemption-new down c user ip s s₂ q).0,
          ground (
            arith,
            p,
            q,
            h,
            (check_code-Usable down now user c s s₁ p).1,
            (record_redemption-new down c user ip s s₂ q).1,
          ),
        )
      ]
    ]

redeem_locked-Redeems :
    (down : Faults) (now user : ℕ) (raw ip : Text) (c : LicenseCode) (s : Store)
    (sub : Subscription) (s' : Store)
    → find (code_is (normalize_code raw)) s.license_codes ≡ some c
    → redeem_locked down now user ip c s ≡ ok (sub, s')
    → Redeems down now user raw ip s sub s'
redeem_locked-Redeems down now user raw ip c s sub s' there h =
    let (can, new, granting) = redeem_locked-run down now user ip c s sub s' h in
    let grants : Grants down now user c.plan_id (redeem_options c) (redeem_context c user ip)
        (redeemed_store c user ip s) sub s' =
      set_plan-Grants down now user c.plan_id (redeem_options c) (redeem_context c user ip)
        (redeemed_store c user ip s) sub s' granting in
    record {
      code = c;
      found = there;
      usable = can;
      first = new;
      redemptions_after = grants.redemptions_kept;
      codes_after = grants.codes_kept;
      holder = ground (arith, grants.row);
      plan = ground (arith, grants.row);
      live = ground (arith, grants.row);
      term = granted-TermGiven now user (read_sub down user s) c sub grants.row;
      current = grants.current;
      filed = grants.filed;
      events_after = grants.events;
      of_source = grants.of_source;
      of_code = grants.of_ref;
    }

-- A redemption whose transaction succeeds finds the code in the table, neither revoked nor out of time nor used
-- up nor of a plan below the user's live one, not redeemed by this user before; it files the
-- redemption, counts one use, and leaves as the user's row an active one of the code's plan, with the
-- term that the rules for a renewal compute from the code's days, or a lifetime if it has none.
pub redeem_tx-Redeems :
    (down : Faults) (now user : ℕ) (raw ip : Text) (s : Store) (sub : Subscription) (s' : Store)
    → redeem_tx down now user raw ip s ≡ (ok sub, s')
    → Redeems down now user raw ip s sub s'
unfolding redeem_tx
redeem_tx-Redeems down now user raw ip s sub s' h =
    elim (Option-cases (find (code_is (normalize_code raw)) s.license_codes)) [
      | inl p ↦ absurd (ground (arith, p, transaction-ok down _ s sub s' h))
      | inr (c, p) ↦
          redeem_locked-Redeems down now user raw ip c s sub s' p
            (ground (arith, p, transaction-ok down _ s sub s' h))
    ]

found_code :
    (raw : Text) (rows : List LicenseCode) (c : LicenseCode)
    → find (code_is (normalize_code raw)) rows ≡ some c
    → c.code ≡ normalize_code raw
unfolding code_is
found_code raw rows c h = ground (
  arith,
  find_sound (code_is (normalize_code raw)) rows c h,
  text_eq_iff c.code (normalize_code raw),
)

-- A redemption that is on record is never made again.
recorded_refused :
    (down : Faults) (now user : ℕ) (raw ip : Text) (s : Store)
    → find (redemption_of (normalize_code raw) user) s.redemptions ≢ none
    → (e : Error) × (redeem_tx down now user raw ip s ≡ (err e, s))
unfolding redeem_tx
recorded_refused down now user raw ip s there =
    elim (transaction-cases down (redeem_body down now user raw ip) s) [
      | inl (e, p) ↦ (e, p)
      | inr (sub, s', p) ↦
          let v = redeem_tx-Redeems down now user raw ip s sub s' p in
          let named : v.code.code ≡ normalize_code raw =
            found_code raw s.license_codes v.code v.found in
          absurd (there (ap (λ c. find (redemption_of c user) s.redemptions) (sym named) ∙ v.first))
    ]

-- What befalls the redemptions: users redeem codes, revoked codes take plans back, and whatever else
-- happens leaves the table of redemptions as it is.
pub data Step : Store → Store → Type 0 where
  redeems :
      (down : Faults) (now user : ℕ) (raw ip : Text) (s : Store)
      → Step s (redeem_tx down now user raw ip s).1
  claws :
      (down : Faults) (now user : ℕ) (code : Text) (gc : GrantContext) (s : Store)
      → Step s (claw_back_one down now user code gc s).1
  elsewhere : (s s' : Store) → s'.redemptions ≡ s.redemptions → Step s s'

pub data Later (s : Store) : Store → Type 0 where
  at_once : Later s s
  then_step : {t u : Store} → Later s t → Step t u → Later s u

redeem-kept :
    (p : LicenseRedemption → Bool) (down : Faults) (now user : ℕ) (raw ip : Text) (s : Store)
    → find p s.redemptions ≢ none
    → find p (redeem_tx down now user raw ip s).1.redemptions ≢ none
unfolding redeem_tx find
redeem-kept p down now user raw ip s there =
    elim (transaction-cases down (redeem_body down now user raw ip) s) [
      | inl (e, q) ↦ rw (redeem_tx, q) there
      | inr (sub, s', q) ↦
          let v = redeem_tx-Redeems down now user raw ip s sub s' q in
          λ lost. there (ground (arith, q, lost, v.redemptions_after))
    ]

Later-kept :
    (p : LicenseRedemption → Bool) {s s' : Store}
    → Later s s'
    → find p s.redemptions ≢ none
    → find p s'.redemptions ≢ none
Later-kept p at_once there = there
Later-kept p (then_step l (redeems down now user raw ip s)) there =
    redeem-kept p down now user raw ip s (Later-kept p l there)
Later-kept p (then_step l (claws down now user code gc s)) there =
    let kept = Later-kept p l there in rw (claw_back_one-redemptions down now user code gc s) kept
Later-kept p (then_step l (elsewhere s s' same)) there =
    let kept = Later-kept p l there in rw same kept

redeemed-found :
    (down : Faults) (now user : ℕ) (raw ip : Text) (s : Store) (sub : Subscription) (s' : Store)
    → Redeems down now user raw ip s sub s'
    → find (redemption_of (normalize_code raw) user) s'.redemptions ≢ none
unfolding find
redeemed-found down now user raw ip s sub s' v lost =
    let named : v.code.code ≡ normalize_code raw = found_code raw s.license_codes v.code v.found in
    let ours : text_eq v.code.code (normalize_code raw) ≡ true =
      (text_eq_iff v.code.code (normalize_code raw)).1 named in
    ground (arith, lost, v.redemptions_after, ours, ==_iff user user)

-- A code that a user has redeemed is refused to that user from then on: after any number of
-- redemptions by anyone and of plans taken back, and of steps that leave the redemptions as they are,
-- it is refused however it is spelled, at whatever time and whatever fails; the result is an error
-- and every table is left as it was.
pub redeem_tx_once :
    (down₁ down₂ : Faults) (now₁ now₂ user : ℕ) (raw₁ raw₂ ip₁ ip₂ : Text) (s : Store)
    (sub : Subscription) (s' s'' : Store)
    → redeem_tx down₁ now₁ user raw₁ ip₁ s ≡ (ok sub, s')
    → Later s' s''
    → normalize_code raw₂ ≡ normalize_code raw₁
    → (e : Error) × (redeem_tx down₂ now₂ user raw₂ ip₂ s'' ≡ (err e, s''))
redeem_tx_once down₁ down₂ now₁ now₂ user raw₁ raw₂ ip₁ ip₂ s sub s' s'' h l same =
    let there =
      redeemed-found down₁ now₁ user raw₁ ip₁ s sub s'
        (redeem_tx-Redeems down₁ now₁ user raw₁ ip₁ s sub s' h) in
    let kept = Later-kept (redemption_of (normalize_code raw₁) user) l there in
    recorded_refused down₂ now₂ user raw₂ ip₂ s'' (rw same kept)
