-- ===== src/Game/Submit/Progress.antt =====
-- A player of a solo game is never stuck: an answer to the question that is open is recorded whenever
-- it arrives, and the player goes on to the next.
use koviobe.Base.{add_int, ℕ, ◌≡◌, true, Option, none, some, List, [], ◌∷◌, ◌++◌, ◌⊎◌, find}
use koviobe.Model.Game.{Room, Player, Question, GameStore, active}
use koviobe.Game.Tables.{room_is, player_is, player_paced, quiz_questions}
use koviobe.Game.Lobby.{PlayerClaims}
use koviobe.Game.Rounds.{has_id}
use koviobe.Game.Answer.{SubmitAnswerReq, Answered, is_claim, is_answer, answer_log}
use koviobe.Game.Submit.{Submission}

-- A player whose turn it is in a solo game: the room runs, the question is the player's current one
-- and stands in the quiz, and there is neither an answer to it nor a mark.
pub record Turn (t : PlayerClaims) (req : SubmitAnswerReq) (s : GameStore) : Type 0 where
  pub room : Room
  pub room_row : find (room_is t.room_id) s.rooms ≡ some room
  pub running : room.status ≡ active
  pub solo : player_paced room.game_mode ≡ true
  pub player : Player
  pub row : find (player_is t.player_id) s.players ≡ some player
  pub home : player.room_id ≡ t.room_id
  pub current : player.current_question_id ≡ some req.question_id
  pub question : Question
  pub listed : find (has_id req.question_id) (quiz_questions room.quiz_id s) ≡ some question
  pub own : question.quiz_id ≡ room.quiz_id
  pub fresh : find (is_answer t.player_id req.question_id) s.answer_logs ≡ none
  pub unmarked : find (is_claim t.player_id req.question_id) s.claims ≡ none

abbrev turn_submission :
    (t : PlayerClaims) (req : SubmitAnswerReq) (s : GameStore) → Turn t req s → Submission
turn_submission t req s u = record {
  token = t;
  room = u.room;
  question = u.question;
  questions = quiz_questions u.room.quiz_id s;
}

-- What follows a question in a list: nothing if it is the last, or else the question behind it.
abbrev pub FollowedBy : ℕ → List Question → Option ℕ → Type 0
FollowedBy id qs next =
    (before : List Question) × (q : Question) × (behind : List Question) × (qs
      ≡ before ++ q ∷ behind)
    × (q.id ≡ id)
    × (((behind ≡ []) × (next ≡ none))
        ⊎ ((q' : Question) × (rest : List Question) × (behind ≡ q' ∷ rest) × (next ≡ some q'.id)))

-- The player after the answer, and the answer in the log.
pub record MovedOn (t : PlayerClaims) (req : SubmitAnswerReq) (before : Player) (next : Option ℕ)
    (a : Answered) (s' : GameStore) : Type 0 where
  pub player : Player
  pub row : find (player_is t.player_id) s'.players ≡ some player
  pub goes_on : player.current_question_id ≡ next
  pub clock : player.question_active_until ≡ none
  pub score : player.score ≡ add_int before.score a.marked.points_earned
  pub logged :
      find (is_answer t.player_id req.question_id) s'.answer_logs
      ≡ some (answer_log before.room_id t.player_id req a.marked)
