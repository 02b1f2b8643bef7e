-- ===== src/Game/Ask.antt =====
-- internal/handler/quiz.go (GetPlayerQuestion, ensureSoloQuestionAssigned): a player fetches a
-- question, and in a solo game is dealt the first and has its clock started.
use koviobe.Base.{
  Result, ok, err, ℕ, Bool, true, false, ◌&&◌, ◌||◌, not, Option, none, some, List, [], ◌∷◌, ◌==◌,
  ltb, if◌then◌else◌, find, count, is_negative, ◌>>=◌, ◌>>◌, return, guard, gets, or_fail,
}
use koviobe.Model.Errors.{
  Error, Faults, room_not_found, room_finished, room_not_active, question_not_found,
  question_not_active, player_not_found, no_more_questions, token_invalid, token_room_mismatch,
  find_room, find_questions, find_player, update_player, count_answers,
}
use koviobe.Model.Game.{GameStore, Room, Player, Question, AnswerLog}
use koviobe.Game.Tables.{
  Play, room_is, player_is, is_active, is_finished, player_paced, update_players, quiz_questions,
}
use koviobe.Game.Lobby.{PlayerClaims}
use koviobe.Game.Rounds.{question_at, deadline, load_questions}

abbrev pub deal_it : ℕ → Player → Player
deal_it q p = record p { current_question_id = some q; question_active_until = none }

abbrev pub answer_of : ℕ → ℕ → AnswerLog → Bool
answer_of room player l = l.room_id == room && l.player_id == player

abbrev pub has_question : Option ℕ → Bool
has_question none = false
has_question (some _) = true

abbrev pub assign_first : Faults → Player → List Question → GameStore → Player × GameStore
assign_first down p [] s = (p, s)
assign_first down p (q ∷ _) s =
    if down (update_player p.id)
    then (p, s)
    else (deal_it q.id p, update_players (player_is p.id) (deal_it q.id) s)

-- ensureSoloQuestionAssigned: a player of a running game who has no question and has answered none
-- is given the first. The row is returned as it is then.
unfoldable pub ensure_assigned : Faults → Room → Player → GameStore → Player × GameStore
unfolding update_players
ensure_assigned down room p s =
    if has_question p.current_question_id
      || not (is_active room.status)
      || down (count_answers p.id)
      || ltb 0 (count (answer_of room.id p.id) s.answer_logs)
      || down (find_questions room.quiz_id)
    then (p, s)
    else assign_first down p (quiz_questions room.quiz_id s) s

abbrev pub start_it : ℕ → Player → Player
start_it until p = record p { question_active_until = some until }

-- The clock of a solo question starts when it is first fetched; a write that fails is not reported.
unfoldable pub start_clock : Faults → ℕ → Question → Player → GameStore → Option ℕ × GameStore
unfolding update_players
start_clock down now q p s = elim p.question_active_until [
  | some until ↦ (some until, s)
  | none ↦ (
    some (deadline now q),
    if down (update_player p.id)
        then s
        else update_players (player_is p.id) (start_it (deadline now q)) s,
  )
]

abbrev pub asks_for : Option ℕ → ℕ → Result Error (Unit {0})
asks_for none q = err no_more_questions
asks_for (some id) q = if id == q then ok tt else err question_not_active

-- The solo branch of GetPlayerQuestion, on the player's row.
unfoldable pub solo_question :
    Faults → ℕ → Room → Question → Player → GameStore → Result Error (Option ℕ) × GameStore
unfolding ensure_assigned start_clock
solo_question down now room q row s =
    let (p, s₁) = ensure_assigned down room row s in
    elim (asks_for p.current_question_id q.id) [
      | err e ↦ (err e, s₁)
      | ok _ ↦ let (until, s₂) = start_clock down now q p s₁ in (ok until, s₂)
    ]

abbrev pub classic_question : Room → ℕ → GameStore → Result Error (Option ℕ) × GameStore
classic_question room index s =
    if not (is_active room.status)
    then (err room_not_active, s)
    else if is_negative room.current_question_index || not (index == room.current_question_index)
    then (err question_not_active, s)
    else (ok room.question_active_until, s)

-- What GetPlayerQuestion reads before its two branches.
pub record Asked : Type 0 where
  pub token : PlayerClaims
  pub room : Room
  pub question : Question

unfoldable pub asked_question : Faults → Option PlayerClaims → ℕ → ℕ → Play Asked
asked_question down token room_id index = do
  t ← or_fail token token_invalid
  guard (t.room_id == room_id) token_room_mismatch
  found ← gets (λ s. find (room_is room_id) s.rooms)
  guard (not (down (find_room room_id))) room_not_found
  room ← or_fail found room_not_found
  guard (not (is_finished room.status)) room_finished
  questions ← load_questions down room.quiz_id
  q ← or_fail (question_at questions index) question_not_found
  return (record { token = t; room = room; question = q })

abbrev pub read_player : Faults → ℕ → GameStore → Option Player
read_player down id s = if down (find_player id) then none else find (player_is id) s.players

-- Its two branches.
unfoldable pub fetch : Faults → ℕ → Asked → ℕ → GameStore → Result Error (Option ℕ) × GameStore
unfolding solo_question
fetch down now x index s =
    if player_paced x.room.game_mode
    then elim (read_player down x.token.player_id s) [
      | none ↦ (err player_not_found, s)
      | some p ↦ solo_question down now x.room x.question p s
    ]
    else classic_question x.room index s

-- GetPlayerQuestion, with the deadline that it reports.
unfoldable pub get_player_question :
    Faults → ℕ → Option PlayerClaims → ℕ → ℕ → GameStore → Result Error (Option ℕ) × GameStore
unfolding asked_question fetch
get_player_question down now token room_id index s =
    elim (asked_question down token room_id index s) [
      | err e ↦ (err e, s)
      | ok (x, s₁) ↦ fetch down now x index s₁
    ]
