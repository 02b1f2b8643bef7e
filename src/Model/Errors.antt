-- ===== src/Model/Errors.antt =====
-- The sentinel errors of internal/pkg/payment, internal/pkg/license and the game handlers, and the
-- database statements that can fail while a handler runs.
use koviobe.Base.{ℕ, Text, Bool, false}

pub data Error : Type 0 where
  checkout_closed product_unavailable order_not_found order_not_pending order_already_paid : Error
  order_not_cancelable confirm_fields too_many_orders : Error
  txn_not_found txn_not_open txn_note_missing ipn_invalid reconcile_not_configured fetch_failed :
      Error
  code_not_found code_revoked code_expired code_exhausted code_already_used : Error
  code_plan_inactive code_lower_tier : Error
  bad_count bad_duration plan_unavailable free_code user_not_found bad_days : Error
  free_plan_missing nothing_to_claw_back enforcement_pinned : Error
  random_failed db_error unique_violation bad_setting : Error
  room_not_found join_closed room_finished room_full nickname_taken player_not_found : Error
  token_invalid token_room_mismatch already_answered question_not_active time_exceeded : Error
  room_not_active question_not_found foreign_question not_waiting solo_room : Error
  no_more_questions no_active_question : Error
  bad_address bad_domain quiz_not_found sharing_not_allowed own_quiz too_many_invites : Error
  collaborator_limit collaborator_not_found : Error

-- What a handler asks of the database, each kind of statement by the rows that it is about.
pub data Query : Type 0 where
  begin commit : Query
  find_product : Text → Query
  find_open_orders count_orders insert_order expire_orders find_orders : Query
  update_order : ℕ → Query
  find_order : Text → Query
  save_order : ℕ → Query
  insert_txn : Query
  find_txn update_txn mark_txn : ℕ → Query
  count_reference : Query
  find_plan : Text → Query
  insert_code : Text → Query
  find_code use_code save_code find_redemptions insert_redemption : Query
  find_user find_subscription save_subscription find_event insert_event : ℕ → Query
  find_due : Query
  read_setting write_setting : Query
  find_pin : Text → Query
  find_room lock_room update_room : ℕ → Query
  find_nickname insert_player : Query
  count_players find_players delete_players deal_players : ℕ → Query
  find_player lock_player update_player delete_player : ℕ → Query
  find_questions find_question : ℕ → Query
  set_claim delete_claim find_answer insert_answer : Query
  count_answers delete_answers find_session insert_session : ℕ → Query
  find_quiz lock_quiz count_collaborators delete_collaborator : ℕ → Query
  find_collaborator insert_collaborator claim_invites count_audits insert_audit : Query
  find_invitee : Query

-- The statements that fail on a run: the network, the pool or the server refuses them.
abbrev pub Faults : Type 0
Faults = Query → Bool

-- A run on which every statement succeeds.
abbrev pub no_faults : Faults
no_faults _ = false
