-- ===== src/License/Code.antt =====
-- internal/pkg/license/code.go: the shape of activation codes, minting a batch of them, and
-- revoking one.
pub mod Minting
use koviobe.Base.{
  ℕ, zero, suc, ◌+◌, Text, Bool, true, false, ◌&&◌, ◌||◌, not, Option, none, some, List, [], ◌∷◌,
  ◌++◌, codes, ltb, leb, ◌==◌, if◌then◌else◌, is_empty, upper, text_eq, trim_space, to_upper, keep,
  trim_prefix, byte_len, take, drop, get_or, length, find, count, update_where, is_negative,
  is_positive, ◌>>=◌, ◌>>◌, return, fail, guard, gets, modify, or_fail, ok, err,
}
use koviobe.Model.Errors.{
  Error, Faults, find_plan, insert_code, find_code, save_code, bad_count, bad_duration,
  plan_unavailable, free_code, random_failed, code_not_found, db_error,
}
use koviobe.Model.License.{PricingPlan, LicenseCode, plan_free}
use koviobe.Model.Store.{Store, Db, stmt}

abbrev pub code_prefix : Text
code_prefix = codes "KOVIO"

abbrev pub code_alphabet : Text
code_alphabet = codes "23456789ABCDEFGHJKMNPQRSTVWXYZ"

abbrev pub code_payload_len : ℕ
code_payload_len = 12

abbrev pub is_alnum : ℕ → Bool
is_alnum c = leb b'A' c && leb c b'Z' || leb b'0' c && leb c b'9'

-- fmt.Sprintf("%s-%s-%s-%s", …).
abbrev pub dashed : Text → Text
dashed s = code_prefix ++ b'-' ∷ take 4 s ++ b'-' ∷ take 4 (drop 4 s) ++ b'-' ∷ take 4 (drop 8 s)

unfoldable pub normalize_code : Text → Text
normalize_code raw =
    let s = trim_prefix code_prefix (keep is_alnum (upper (trim_space raw))) in
    if length s == code_payload_len then dashed s else upper (trim_space raw)

-- What rand.Int(rand.Reader, 30) returns, call after call; past the end the reader fails.
abbrev pub Reader : Type 0
Reader = List ℕ

unfoldable pub random_text : ℕ → Reader → Option (Text × Reader)
random_text zero r = some ([], r)
random_text (suc n) [] = none
random_text (suc n) (x ∷ r) = elim (random_text n r) [
  | none ↦ none
  | some (s, r') ↦ some (get_or code_alphabet x 0 ∷ s, r')
]

unfoldable pub random_payload : Reader → Option (Text × Reader)
unfolding random_text
random_payload = random_text code_payload_len

pub record GenerateOptions : Type 0 where
  pub plan_id : Text
  pub count : ℕ
  pub duration_days : ℕ
  pub max_uses : ℕ
  pub expires_at : Option ℕ
  pub batch : Text
  pub note : Text
  pub amount_vnd : ℕ
  pub external_ref : Text
  pub created_by : ℕ

unfoldable pub plan_active : Text → PricingPlan → Bool
plan_active id p = text_eq p.id id && p.is_active

unfoldable pub new_code : GenerateOptions → Text → LicenseCode
new_code o payload = record {
  code = normalize_code (code_prefix ++ payload);
  plan_id = o.plan_id;
  duration_days = o.duration_days;
  max_uses = o.max_uses;
  used_count = 0;
  expires_at = o.expires_at;
  revoked_at = none;
  batch = o.batch;
  note = o.note;
  amount_vnd = o.amount_vnd;
  external_ref = o.external_ref;
  created_by = o.created_by;
}

unfoldable pub code_is : Text → LicenseCode → Bool
code_is code c = text_eq c.code code

-- INSERT … ON CONFLICT DO NOTHING: whether a row was written.
unfoldable pub insert_new_code : Faults → LicenseCode → Db Bool
unfolding code_is
insert_new_code down c = do
  stmt down (insert_code c.code)
  taken ← gets (λ s. find (code_is c.code) s.license_codes)
  elim taken [
    | some _ ↦ return false
    | none ↦ modify (λ s. record s { license_codes = c ∷ s.license_codes }) >> return true
  ]

-- The rounds of `for len(out) < opts.Count`; a round reads twelve numbers, so the reader bounds them.
unfoldable pub mint_loop :
    ℕ → Faults → GenerateOptions → Reader → List LicenseCode → Db (List LicenseCode)
mint_loop zero down o r out s = err random_failed
mint_loop (suc f) down o r out s = elim (ltb (length out) o.count) [
  | false ↦ ok (out, s)
  | true ↦ elim (random_payload r) [
    | none ↦ err random_failed
    | some (p, r') ↦ elim (insert_new_code down (new_code o p) s) [
      | err e ↦ err e
      | ok (written, s') ↦
          mint_loop f down o r' (if written then out ++ new_code o p ∷ [] else out) s'
    ]
  ]
]

unfoldable pub generate_codes : Faults → Reader → GenerateOptions → Db (List LicenseCode)
unfolding plan_active
generate_codes down r opts = do
  guard (is_positive opts.count && leb opts.count 500) bad_count
  let o = record opts { max_uses = if is_positive opts.max_uses then opts.max_uses else 1 }
  guard (not (is_negative o.duration_days)) bad_duration
  found ← gets (λ s. find (plan_active o.plan_id) s.plans)
  guard (not (down (find_plan o.plan_id))) plan_unavailable
  plan ← or_fail found plan_unavailable
  guard (not (text_eq o.plan_id plan_free)) free_code
  mint_loop (suc (length r)) down o r []

-- RevokeCode: a second revocation keeps the first stamp.
unfoldable pub revoke_code : Faults → ℕ → Text → Db LicenseCode
unfolding code_is
revoke_code down now raw = do
  let code = normalize_code raw
  found ← gets (λ s. find (code_is code) s.license_codes)
  guard (not (down find_code)) code_not_found
  c ← or_fail found code_not_found
  elim c.revoked_at [
    | some _ ↦ return c
    | none ↦ do
      let c' = record c { revoked_at = some now }
      stmt down save_code
      modify
          (λ s. record s { license_codes = update_where (code_is code) (λ _. c') s.license_codes })
      return c'
  ]
