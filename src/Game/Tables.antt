-- ===== src/Game/Tables.antt =====
-- internal/model/model.go and question_cache.go: the statements that the game handlers share, and the
-- questions of a quiz in the order of play.
use koviobe.Base.{
  ℕ, Text, Bool, true, false, ◌&&◌, not, List, [], ◌∷◌, codes, ◌==◌, leb, if◌then◌else◌, text_eq,
  find, select, update_where, ◌>>=◌, ◌>>◌, guard, gets, or_fail, Tx,
}
use koviobe.Model.Errors.{Error, Faults, room_not_found, find_room}
use koviobe.Model.Game.{Room, RoomStatus, Player, Question, GameStore, waiting, active, finished}

abbrev pub Play : Type 0 → Type 0
Play A = Tx Error GameStore A

abbrev pub room_is : ℕ → Room → Bool
room_is id r = r.id == id

abbrev pub player_is : ℕ → Player → Bool
player_is id p = p.id == id

abbrev pub sits_in : ℕ → Player → Bool
sits_in room p = p.room_id == room

abbrev pub is_waiting : RoomStatus → Bool
is_waiting waiting = true
is_waiting _ = false

abbrev pub is_active : RoomStatus → Bool
is_active active = true
is_active _ = false

abbrev pub is_finished : RoomStatus → Bool
is_finished finished = true
is_finished _ = false

abbrev pub player_paced : Text → Bool
player_paced mode = text_eq mode (codes "player_paced")

-- UPDATE rooms SET … WHERE id = ….
unfoldable pub update_room_row : ℕ → (Room → Room) → GameStore → GameStore
update_room_row id f s = record s { rooms = update_where (room_is id) f s.rooms }

-- UPDATE players SET … WHERE ….
unfoldable pub update_players : (Player → Bool) → (Player → Player) → GameStore → GameStore
update_players p f s = record s { players = update_where p f s.players }

-- DELETE FROM players WHERE ….
unfoldable pub remove_players : (Player → Bool) → GameStore → GameStore
remove_players p s = record s { players = select (λ x. not (p x)) s.players }

-- The questions of a quiz in play order: by their order, then by their id.
abbrev pub before : Question → Question → Bool
before a b = if a.order == b.order then leb a.id b.id else leb a.order b.order

unfoldable pub insert_question : Question → List Question → List Question
insert_question q [] = q ∷ []
insert_question q (x ∷ xs) =
    let rest = insert_question q xs in if before q x then q ∷ x ∷ xs else x ∷ rest

unfoldable pub in_order : List Question → List Question
unfolding insert_question
in_order [] = []
in_order (q ∷ qs) = insert_question q (in_order qs)

unfoldable pub quiz_questions : ℕ → GameStore → List Question
unfolding in_order
quiz_questions quiz s = in_order (select (λ q. q.quiz_id == quiz) s.questions)

abbrev pub is_hosted : ℕ → ℕ → Room → Bool
is_hosted id host r = r.id == id && r.host_id == host

abbrev pub hosted_room : Faults → ℕ → ℕ → Play Room
hosted_room down host id = do
  found ← gets (λ s. find (is_hosted id host) s.rooms)
  guard (not (down (find_room id))) room_not_found
  or_fail found room_not_found
