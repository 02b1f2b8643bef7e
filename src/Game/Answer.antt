-- ===== src/Game/Answer.antt =====
-- internal/handler/quiz.go (SubmitAnswer), answer_claim.go and submit_classic.go: an answer, from the
-- mark in Redis to the row in the log. Each transaction is one step, as its row locks make it.
pub mod Effect
use koviobe.Base.{
  ℕ, ◌+◌, ◌^◌, Text, Bool, true, false, ◌&&◌, ◌||◌, not, Option, none, some, List, [], ◌∷◌, ◌==◌,
  ltb, if◌then◌else◌, find, select, add_int, ◌>>=◌, ◌>>◌, return, fail, guard, gets, modify,
  or_fail,
}
use koviobe.Model.Errors.{
  Faults, db_error, room_not_active, room_finished, question_not_active, time_exceeded,
  player_not_found, token_room_mismatch, already_answered, lock_room, lock_player, update_player,
  insert_answer, set_claim, delete_claim,
}
use koviobe.Model.Game.{
  Room, RoomStatus, Player, Question, AnswerLog, AnswerClaim, GameStore, waiting, active, finished,
}
use koviobe.Model.Store.{stmt}
use koviobe.Game.Scoring.{Marked, mark_solo, mark_classic, is_late}
use koviobe.Game.Tables.{Play, room_is, player_is, update_players}
use koviobe.Game.Lobby.{PlayerClaims}
use koviobe.Game.Rounds.{after_question, is_current}

pub record SubmitAnswerReq : Type 0 where
  pub question_id : ℕ
  pub selected_option : Text

-- What the handler answers, and whether it ends a solo game whose last player has finished.
pub record Answered : Type 0 where
  pub marked : Marked
  pub score : ℕ
  pub player_finished : Bool
  pub ends_room : Bool

abbrev pub is_claim : ℕ → ℕ → AnswerClaim → Bool
is_claim player question c = c.player_id == player && c.question_id == question

-- claimAnswer: the mark is set, was there before, or cannot be asked for.
pub data Claim : Type 0 where
  claimed repeated unavailable : Claim

unfoldable pub claim_answer : Faults → ℕ → ℕ → GameStore → Claim × GameStore
claim_answer down player question s =
    if down set_claim then (unavailable, s) else elim (find (is_claim player question) s.claims) [
      | some _ ↦ (repeated, s)
      | none ↦ (
        claimed,
        record s { claims = record { player_id = player; question_id = question } ∷ s.claims },
      )
    ]

-- releaseAnswer: best effort.
unfoldable pub release_answer : Faults → ℕ → ℕ → GameStore → GameStore
release_answer down player question s =
    if down delete_claim
    then s
    else record s { claims = select (λ c. not (is_claim player question c)) s.claims }

abbrev pub is_answer : ℕ → ℕ → AnswerLog → Bool
is_answer player question l = l.player_id == player && l.question_id == question

-- INSERT INTO answer_logs, under the unique index on (player_id, question_id).
unfoldable pub insert_log : Faults → AnswerLog → Play (Unit {0})
insert_log down l = do
  clash ← gets (λ s. find (is_answer l.player_id l.question_id) s.answer_logs)
  stmt down insert_answer
  elim clash [
    | some _ ↦ fail already_answered
    | none ↦ modify (λ s. record s { answer_logs = l ∷ s.answer_logs })
  ]

-- The row of the room under its lock, and the test of its status in either branch.
abbrev pub check_running : RoomStatus → Play (Unit {0})
check_running waiting = fail room_not_active
check_running active = return tt
check_running finished = fail room_finished

unfoldable pub lock_running : Faults → ℕ → Play Room
lock_running down room = do
  stmt down (lock_room room)
  found ← gets (λ s. find (room_is room) s.rooms)
  r ← or_fail found room_finished
  check_running r.status
  return r

abbrev pub answer_log : ℕ → ℕ → SubmitAnswerReq → Marked → AnswerLog
answer_log room player req m = record {
  room_id = room;
  player_id = player;
  question_id = req.question_id;
  selected_option = req.selected_option;
  is_correct = m.is_correct;
  points_earned = m.points_earned;
  response_time_ms = m.response_time_ms;
}

-- The question after the one that was answered, none where it was the last or is not in the quiz.
unfoldable pub next_of : ℕ → List Question → Option ℕ
next_of id qs = elim (after_question id qs) [
  | none ↦ none
  | some [] ↦ none
  | some (q ∷ _) ↦ some q.id
]

abbrev pub advanced : ℕ → Option ℕ → Player → Player
advanced score next p = record p {
  score = score;
  current_question_id = next;
  question_active_until = none;
}

abbrev pub is_none : Option ℕ → Bool
is_none none = true
is_none (some _) = false

-- The branch of SubmitAnswer for a game that each player goes through alone.
unfoldable pub answer_solo :
    Faults
    → ℕ
    → Bool
    → PlayerClaims
    → ℕ
    → Question
    → List Question
    → SubmitAnswerReq
    → Play Answered
unfolding lock_running mark_solo insert_log next_of update_players
answer_solo down now correct t room q questions req = do
  stmt down (lock_player t.player_id)
  found ← gets (λ s. find (player_is t.player_id) s.players)
  p ← or_fail found player_not_found
  guard (p.room_id == t.room_id) token_room_mismatch
  r ← lock_running down room
  guard (is_current p.current_question_id req.question_id) question_not_active
  let m = mark_solo now p.question_active_until q correct
  let score = add_int p.score m.points_earned
  let next = next_of req.question_id questions
  stmt down (update_player p.id)
  modify (update_players (player_is p.id) (advanced score next))
  insert_log down (answer_log room p.id req m)
  return (record { marked = m; score = score; player_finished = is_none next; ends_room = false })

abbrev pub raise : ℕ → Player → Player
raise n p = record p { score = p.score + n }

-- recordClassicAnswer: one statement that logs the answer of a player in the token's room and adds
-- the points, which the bigint column must hold.
unfoldable pub record_classic_answer : Faults → ℕ → ℕ → SubmitAnswerReq → Marked → Play ℕ
unfolding insert_log update_players
record_classic_answer down room player req m = do
  found ← gets (λ s. find (player_is player) s.players)
  stmt down (update_player player)
  p ← or_fail found player_not_found
  guard (p.room_id == room) token_room_mismatch
  insert_log down (answer_log room player req m)
  guard (m.points_earned == 0 || ltb (p.score + m.points_earned) (2 ^ 63)) db_error
  modify (update_players (player_is player) (raise m.points_earned))
  return (p.score + m.points_earned)

abbrev pub in_time : ℕ → Option ℕ → Bool
in_time now none = false
in_time now (some until) = not (is_late until now)

-- The branch of SubmitAnswer for a game that its host leads.
unfoldable pub answer_classic :
    Faults → ℕ → Bool → PlayerClaims → ℕ → Question → SubmitAnswerReq → Play Answered
unfolding lock_running mark_classic record_classic_answer
answer_classic down now correct t room q req = do
  r ← lock_running down room
  guard (is_current r.current_question_id req.question_id) question_not_active
  guard (in_time now r.question_active_until) time_exceeded
  until ← or_fail r.question_active_until time_exceeded
  let m = mark_classic now until q correct
  score ← record_classic_answer down room t.player_id req m
  return (record { marked = m; score = score; player_finished = false; ends_room = false })
