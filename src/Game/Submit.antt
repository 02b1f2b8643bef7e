-- ===== src/Game/Submit.antt =====
-- internal/handler/quiz.go (SubmitAnswer): the handler around its transaction.
pub mod Retry
pub mod Progress
use koviobe.Base.{
  ℕ, Bool, true, false, ◌&&◌, ◌||◌, not, Option, none, some, List, ◌==◌, if◌then◌else◌, find,
  Result, ok, err, ◌>>=◌, ◌>>◌, return, guard, gets, or_fail,
}
use koviobe.Model.Errors.{
  Error, Faults, room_not_active, question_not_found, foreign_question, token_invalid,
  already_answered, find_room, find_question, find_answer, find_players,
}
use koviobe.Model.Game.{Room, Player, Question, GameStore}
use koviobe.Model.Store.{transaction}
use koviobe.Game.Scoring.{Judge, evaluate_answer}
use koviobe.Game.Tables.{Play, room_is, player_paced}
use koviobe.Game.Lobby.{PlayerClaims}
use koviobe.Game.Rounds.{has_id, load_questions}
use koviobe.Game.Answer.{
  SubmitAnswerReq, Answered, Claim, claimed, repeated, unavailable, claim_answer, release_answer,
  is_answer, answer_solo, answer_classic,
}

-- What SubmitAnswer has read when it comes to mark the answer.
pub record Submission : Type 0 where
  pub token : PlayerClaims
  pub room : Room
  pub question : Question
  pub questions : List Question

-- A question that the quiz does not list is looked up in its table.
abbrev pub find_any : Faults → ℕ → Option Question → Play Question
find_any down id (some q) = return q
find_any down id none = do
  found ← gets (λ s. find (has_id id) s.questions)
  guard (not (down (find_question id))) question_not_found
  or_fail found question_not_found

unfoldable pub submission : Faults → Option PlayerClaims → SubmitAnswerReq → Play Submission
submission down token req = do
  t ← or_fail token token_invalid
  found ← gets (λ s. find (room_is t.room_id) s.rooms)
  guard (not (down (find_room t.room_id))) room_not_active
  room ← or_fail found room_not_active
  questions ← load_questions down room.quiz_id
  q ← find_any down req.question_id (find (has_id req.question_id) questions)
  guard (q.quiz_id == room.quiz_id) foreign_question
  return (record { token = t; room = room; question = q; questions = questions })

unfoldable pub answer_tx : Faults → ℕ → Judge → SubmitAnswerReq → Submission → Play Answered
answer_tx down now j req x =
    let correct = evaluate_answer j x.question req.selected_option in
    if player_paced x.room.game_mode
    then answer_solo down now correct x.token x.room.id x.question x.questions req
    else answer_classic down now correct x.token x.room.id x.question req

abbrev pub still_plays : ℕ → Player → Bool
still_plays room p =
    p.room_id == room && elim p.current_question_id [ none ↦ false | some _ ↦ true ]

-- The query for a player of the room who has not finished; one that fails leaves the room open.
abbrev pub any_left : Faults → ℕ → GameStore → Bool
any_left down room s =
    down (find_players room)
    || elim (find (still_plays room) s.players) [ none ↦ false | some _ ↦ true ]

abbrev pub is_repeat : Error → Bool
is_repeat already_answered = true
is_repeat _ = false

-- The end of the handler: a mark whose answer was not recorded is taken back.
unfoldable pub settle_claim :
    Faults
    → Bool
    → SubmitAnswerReq
    → Submission
    → Result Error Answered × GameStore
    → Result Error Answered × GameStore
unfolding release_answer
settle_claim down mine req x (ok a, s) =
    (ok (record a { ends_room = a.player_finished && not (any_left down x.room.id s) }), s)
settle_claim down mine req x (err e, s) = (
  err e,
  if mine && not (is_repeat e) then release_answer down x.token.player_id req.question_id s else s,
)

unfoldable pub record_answer :
    Faults
    → ℕ
    → Judge
    → SubmitAnswerReq
    → Submission
    → Bool
    → GameStore
    → Result Error Answered × GameStore
unfolding answer_tx settle_claim
record_answer down now j req x mine s =
    settle_claim down mine req x (transaction down (answer_tx down now j req x) s)

abbrev pub was_answered : Faults → ℕ → ℕ → GameStore → Bool
was_answered down player question s =
    not (down find_answer)
    && elim (find (is_answer player question) s.answer_logs) [ none ↦ false | some _ ↦ true ]

-- The part of SubmitAnswer behind its reads, on what claimAnswer returns.
abbrev pub submit_claimed :
    Faults
    → ℕ
    → Judge
    → SubmitAnswerReq
    → Submission
    → Claim
    → GameStore
    → Result Error Answered × GameStore
submit_claimed down now j req x claimed s = record_answer down now j req x true s
submit_claimed down now j req x repeated s = (err already_answered, s)
submit_claimed down now j req x unavailable s =
    if was_answered down x.token.player_id req.question_id s
    then (err already_answered, s)
    else record_answer down now j req x false s

-- SubmitAnswer; `now` is receivedAt.
unfoldable pub submit_answer :
    Faults
    → ℕ
    → Judge
    → Option PlayerClaims
    → SubmitAnswerReq
    → GameStore
    → Result Error Answered × GameStore
unfolding claim_answer
submit_answer down now j token req s = elim (submission down token req s) [
  | err e ↦ (err e, s)
  | ok (x, s₁) ↦
      let (c, s₂) = claim_answer down x.token.player_id req.question_id s₁ in
      submit_claimed down now j req x c s₂
]
