-- ===== src/Model/License.antt =====
-- internal/model/license.go, and the sources of a grant of internal/pkg/license/license.go.
-- Plans, codes, subscriptions and their history; timestamps are instants in nanoseconds.
use koviobe.Base.{ℕ, Text, Bool, Option, codes}

abbrev pub plan_free : Text
plan_free = codes "free"

abbrev pub plan_edu : Text
plan_edu = codes "edu"

abbrev pub plan_pro : Text
plan_pro = codes "pro"

abbrev pub plan_business : Text
plan_business = codes "business"

pub record PricingPlan : Type 0 where
  pub id : Text
  pub name : Text
  pub max_players_per_room : ℕ
  pub max_quizzes : ℕ
  pub max_templates : ℕ
  pub max_concurrent_rooms : ℕ
  pub max_questions_per_quiz : ℕ
  pub allow_player_paced : Bool
  pub allow_custom_branding : Bool
  pub allow_export_logs : Bool
  pub allow_priority_support : Bool
  pub allow_remove_watermark : Bool
  pub allow_quiz_sharing : Bool
  pub max_collaborators_per_quiz : ℕ
  pub is_active : Bool

pub data SubStatus : Type 0 where
  active canceled expired other_status : SubStatus

pub record Subscription : Type 0 where
  pub user_id : ℕ
  pub plan_id : Text
  pub status : SubStatus
  pub starts_at : ℕ
  pub ends_at : Option ℕ

pub record LicenseCode : Type 0 where
  pub code : Text
  pub plan_id : Text
  pub duration_days : ℕ
  pub max_uses : ℕ
  pub used_count : ℕ
  pub expires_at : Option ℕ
  pub revoked_at : Option ℕ
  pub batch : Text
  pub note : Text
  pub amount_vnd : ℕ
  pub external_ref : Text
  pub created_by : ℕ

pub record LicenseRedemption : Type 0 where
  pub code : Text
  pub user_id : ℕ
  pub plan_id : Text
  pub ip_address : Text

-- `unset` is the empty string, `seed` the source of a row that no handler wrote.
pub data Source : Type 0 where
  unset admin_assign code_redeem expiry_auto admin_revoke : Source
  payment_sepay payment_gateway payment_manual seed : Source

pub data Action : Type 0 where
  grant renew downgrade expire : Action

pub record SubscriptionEvent : Type 0 where
  pub user_id : ℕ
  pub email : Text
  pub action : Action
  pub source : Source
  pub source_ref : Text
  pub previous_plan_id : Text
  pub plan_id : Text
  pub starts_at : ℕ
  pub ends_at : Option ℕ
  pub amount_vnd : ℕ
  pub external_ref : Text
  pub actor_user_id : ℕ
  pub note : Text
  pub ip_address : Text

pub record GrantContext : Type 0 where
  pub source : Source
  pub source_ref : Text
  pub amount_vnd : ℕ
  pub external_ref : Text
  pub actor_user_id : ℕ
  pub note : Text
  pub ip_address : Text

pub record User : Type 0 where
  pub id : ℕ
  pub email : Text
