-- ===== src/Game/Rounds.antt =====
-- internal/handler/quiz.go (NextQuestion, EndQuestion): which question of a room is open.
use koviobe.Base.{
  ℕ, zero, suc, ◌+◌, ◌*◌, Bool, true, false, not, Option, none, some, List, [], ◌∷◌, ◌==◌, ltb, leb,
  if◌then◌else◌, find, take, select, add_int, second, ◌>>=◌, ◌>>◌, return, guard, gets, modify,
  or_fail,
}
use koviobe.Model.Errors.{
  Faults, room_not_active, solo_room, no_more_questions, no_active_question, update_room,
  find_questions,
}
use koviobe.Model.Game.{Room, Player, Question}
use koviobe.Model.Store.{stmt}
use koviobe.Game.Tables.{
  Play, room_is, is_active, sits_in, player_paced, update_room_row, quiz_questions, hosted_room,
}

-- The question at an index, and the index of a question.
unfoldable pub question_at : List Question → ℕ → Option Question
question_at [] i = none
question_at (q ∷ qs) zero = some q
question_at (q ∷ qs) (suc i) = question_at qs i

abbrev pub has_id : ℕ → Question → Bool
has_id id q = q.id == id

-- What follows a question in the list, none where the list does not hold it.
unfoldable pub after_question : ℕ → List Question → Option (List Question)
after_question id [] = none
after_question id (q ∷ qs) = let rest = after_question id qs in if q.id == id then some qs else rest

abbrev pub deadline : ℕ → Question → ℕ
deadline now q = now + q.duration * second

-- A room that its host leads, while it is running.
unfoldable pub running_room : Faults → ℕ → ℕ → Play Room
running_room down host id = do
  room ← hosted_room down host id
  guard (is_active room.status) room_not_active
  guard (not (player_paced room.game_mode)) solo_room
  return room

abbrev pub load_questions : Faults → ℕ → Play (List Question)
load_questions down quiz = stmt down (find_questions quiz) >> gets (quiz_questions quiz)

abbrev pub open_question : ℕ → ℕ → Question → Room → Room
open_question now index q r = record r {
  current_question_index = index;
  current_question_id = some q.id;
  question_active_until = some (deadline now q);
}

-- The guarded UPDATE of NextQuestion: a room that has finished since it was read keeps its row.
unfoldable pub activate : Faults → ℕ → ℕ → ℕ → Question → Play (Unit {0})
unfolding update_room_row
activate down now room index q = do
  stmt down (update_room room)
  found ← gets (λ s. find (room_is room) s.rooms)
  r ← or_fail found room_not_active
  guard (is_active r.status) room_not_active
  modify (update_room_row room (open_question now index q))

-- The part of NextQuestion before its UPDATE: the room as it is read, the index and the question that
-- come next.
unfoldable pub choose_next : Faults → ℕ → ℕ → Play (Room × ℕ × Question)
unfolding running_room
choose_next down host id = do
  room ← running_room down host id
  questions ← load_questions down room.quiz_id
  let index = add_int room.current_question_index 1
  q ← or_fail (question_at questions index) no_more_questions
  return (room, index, q)

-- NextQuestion, with the question that it opens, where nothing comes between its read and its UPDATE;
-- no lock is held, and the two halves are also steps of their own.
unfoldable pub next_question : Faults → ℕ → ℕ → ℕ → Play Question
unfolding choose_next activate
next_question down now host id = do
  chosen ← choose_next down host id
  activate down now chosen.0.id chosen.1 chosen.2
  return chosen.2

-- score DESC, id ASC.
abbrev pub ahead : Player → Player → Bool
ahead p q = if p.score == q.score then leb p.id q.id else ltb q.score p.score

unfoldable pub insert_ahead : Player → List Player → List Player
insert_ahead p [] = p ∷ []
insert_ahead p (x ∷ xs) = let rest = insert_ahead p xs in if ahead p x then p ∷ x ∷ xs else x ∷ rest

unfoldable pub standings : List Player → List Player
unfolding insert_ahead
standings [] = []
standings (p ∷ ps) = insert_ahead p (standings ps)

abbrev pub close_it : Room → Room
close_it r = record r { question_active_until = none }

-- EndQuestion, with its leaderboard. A write that fails is not reported.
unfoldable pub end_question : Faults → ℕ → ℕ → Play (List Player)
unfolding running_room standings update_room_row
end_question down host id = do
  room ← running_room down host id
  question ← or_fail room.current_question_id no_active_question
  top ← gets (λ s. take 5 (standings (select (sits_in room.id) s.players)))
  elim (down (update_room room.id)) [
    | true ↦ return tt
    | false ↦ modify (update_room_row room.id close_it)
  ]
  return top

abbrev pub is_current : Option ℕ → ℕ → Bool
is_current none q = false
is_current (some id) q = id == q
