-- ===== src/Model/Game.antt =====
-- internal/model/model.go: the tables of a live game, and the marks that Redis keeps on answers.
-- A row has the columns that the game handlers read or write. Numbers that Go keeps in an `int`
-- are 64-bit patterns, and times are nanoseconds.
use koviobe.Base.{ℕ, Text, Bool, Option, List}

-- `game_mode` is what theme.Parse and json.Unmarshal read out of theme_config.
pub data RoomStatus : Type 0 where
  waiting active finished : RoomStatus

-- EndReasonHost, EndReasonLicenseExpired and EndReasonLicenseRevoked.
pub data EndReason : Type 0 where
  by_host license_expired license_revoked : EndReason

pub record Question : Type 0 where
  pub id : ℕ
  pub quiz_id : ℕ
  pub kind : Text
  pub correct_answer : Text
  pub duration : ℕ
  pub points : ℕ
  pub order : ℕ
  pub explanation : Text

pub record Room : Type 0 where
  pub id : ℕ
  pub pin_code : Text
  pub quiz_id : ℕ
  pub host_id : ℕ
  pub status : RoomStatus
  pub ended_reason : EndReason
  pub is_private : Bool
  pub game_mode : Text
  pub current_question_id : Option ℕ
  pub current_question_index : ℕ
  pub question_active_until : Option ℕ

pub record Player : Type 0 where
  pub id : ℕ
  pub room_id : ℕ
  pub nickname : Text
  pub score : ℕ
  pub is_connected : Bool
  pub current_question_id : Option ℕ
  pub question_active_until : Option ℕ

pub record AnswerLog : Type 0 where
  pub room_id : ℕ
  pub player_id : ℕ
  pub question_id : ℕ
  pub selected_option : Text
  pub is_correct : Bool
  pub points_earned : ℕ
  pub response_time_ms : ℕ

-- One line of the podium, as finalizeRoom archives it.
pub record FinalRanking : Type 0 where
  pub nickname : Text
  pub score : ℕ
  pub correct_answers : ℕ

-- `rankings` is what json.Unmarshal reads back of the stored array.
pub record GameSession : Type 0 where
  pub room_id : ℕ
  pub host_id : ℕ
  pub quiz_id : ℕ
  pub rankings : List FinalRanking
  pub player_count : ℕ
  pub ended_at : ℕ

-- The key quiz:answered:<player>:<question>.
pub record AnswerClaim : Type 0 where
  pub player_id : ℕ
  pub question_id : ℕ

-- The tables of the game handlers. New rows stand first, and take their ids from a counter.
pub record GameStore : Type 0 where
  pub rooms : List Room
  pub next_room : ℕ
  pub players : List Player
  pub next_player : ℕ
  pub answer_logs : List AnswerLog
  pub sessions : List GameSession
  pub questions : List Question
  pub claims : List AnswerClaim
