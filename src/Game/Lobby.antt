-- ===== src/Game/Lobby.antt =====
-- internal/handler/quiz.go (JoinRoom, LeaveRoom, StartGame, UpdateRoomPrivacy) and player_errors.go:
-- who sits in a room before its game starts. Each handler is one step, as the lock on the room's row
-- makes it.
pub mod Seats
use koviobe.Base.{
  ℕ, suc, Text, Bool, true, false, ◌&&◌, ◌||◌, not, ◌-◌, Option, none, some, List, [], ◌∷◌, ◌==◌,
  leb, if◌then◌else◌, text_eq, find, count, is_negative, is_positive, word, Result, ok, err, ◌>>=◌,
  ◌>>◌, return, fail, guard, gets, modify, or_fail,
}
use koviobe.Model.Errors.{
  Error, Faults, db_error, room_not_found, join_closed, room_finished, room_full, nickname_taken,
  token_invalid, token_room_mismatch, not_waiting, find_pin, find_room, lock_room, update_room,
  find_nickname, insert_player, count_players, delete_players, deal_players, update_player,
  delete_player, find_questions,
}
use koviobe.Model.Game.{Room, RoomStatus, Player, Question, GameStore, waiting, active, finished}
use koviobe.Model.Store.{Store, stmt, transaction}
use koviobe.License.Plans.{Setting, entitlements}
use koviobe.Game.Tables.{
  Play, room_is, sits_in, is_waiting, is_active, player_paced, update_room_row, update_players,
  remove_players, quiz_questions, hosted_room,
}

pub record JoinRoomReq : Type 0 where
  pub pin_code : Text
  pub nickname : Text

-- The switch on the room's status at the top of JoinRoom.
abbrev check_open : RoomStatus → Play (Unit {0})
check_open waiting = return tt
check_open finished = fail room_finished
check_open active = fail join_closed

unfoldable pub joined_room : Faults → Text → Play Room
joined_room down pin = do
  found ← gets (λ s. find (λ r. text_eq r.pin_code pin) s.rooms)
  guard (not (down (find_pin pin))) room_not_found
  room ← or_fail found room_not_found
  check_open room.status
  return room

abbrev pub has_nickname : ℕ → Text → Player → Bool
has_nickname room name p = p.room_id == room && text_eq p.nickname name

-- A name whose holder's page is gone is freed, before the transaction and whatever becomes of it.
unfoldable pub free_nickname : Faults → ℕ → Text → Play (Unit {0})
unfolding remove_players
free_nickname down room name = do
  held ← gets (λ s. find (has_nickname room name) s.players)
  elim held [
    | none ↦ return tt
    | some p ↦
        if down find_nickname
        then return tt
        else if p.is_connected
        then fail nickname_taken
        else stmt down (delete_player p.id)
          >> modify (remove_players (λ x. x.id == p.id && not x.is_connected))
  ]

-- JoinRoom's cap: `limit` is the plan's MaxPlayersPerRoom, a signed number.
unfoldable pub seat_limit : Bool → ℕ → ℕ
seat_limit enforcing limit = if enforcing || is_positive limit then limit else 20

abbrev pub is_seated : ℕ → Player → Bool
is_seated room p = p.room_id == room && p.is_connected

abbrev check_seats : Faults → Bool → ℕ → ℕ → Play (Unit {0})
check_seats down false limit room = return tt
check_seats down true limit room = do
  n ← gets (λ s. count (is_seated room) s.players)
  stmt down (count_players room)
  guard (not (is_negative limit || leb limit n)) room_full

abbrev pub new_player : ℕ → ℕ → Text → Player
new_player id room name = record {
  id = id;
  room_id = room;
  nickname = name;
  score = 0;
  is_connected = true;
  current_question_id = none;
  question_active_until = none;
}

-- The unique index on (room_id, nickname) refuses a name that is held.
unfoldable pub insert_new_player : Faults → ℕ → Text → Play Player
insert_new_player down room name = do
  clash ← gets (λ s. find (has_nickname room name) s.players)
  id ← gets (λ s. s.next_player)
  stmt down insert_player
  elim clash [
    | some _ ↦ fail nickname_taken
    | none ↦
        modify (λ s. record s {
          players = new_player id room name ∷ s.players;
          next_player = suc s.next_player;
        })
        >> return (new_player id room name)
  ]

-- The transaction of JoinRoom, under the lock on the room.
unfoldable pub seat : Faults → Bool → ℕ → ℕ → Text → Play Player
unfolding insert_new_player
seat down enforcing limit room name = do
  stmt down (lock_room room)
  found ← gets (λ s. find (room_is room) s.rooms)
  locked ← or_fail found db_error
  guard (is_waiting locked.status) join_closed
  check_seats down enforcing (seat_limit enforcing limit) locked.id
  insert_new_player down room name

-- JoinRoom, where `limit_of` gives the plan's limit of a host.
unfoldable pub join_limited :
    Faults → Bool → (ℕ → ℕ) → JoinRoomReq → GameStore → Result Error Player × GameStore
join_limited down enforcing limit_of req s = elim (joined_room down req.pin_code s) [
  | err e ↦ (err e, s)
  | ok (room, s₁) ↦ elim (free_nickname down room.id req.nickname s₁) [
    | err e ↦ (err e, s₁)
    | ok (_, s₂) ↦
        transaction down (seat down enforcing (limit_of room.host_id) room.id req.nickname) s₂
  ]
]

-- The tables of plans after JoinRoom: reading the limits of the room's host may write a row.
abbrev pub plans_after : Setting → JoinRoomReq → GameStore → Store → Store
plans_after m req s tables = elim (joined_room m.down req.pin_code s) [
  | err e ↦ tables
  | ok (room, _) ↦ (entitlements m room.host_id tables).1
]

-- The plan's limit of a host.
abbrev pub host_limit : Setting → Store → ℕ → ℕ
host_limit m tables host = (entitlements m host tables).0.max_players_per_room

-- JoinRoom, over the tables of the game and those of the plans.
unfoldable pub join_room :
    Setting → JoinRoomReq → GameStore → Store → Result Error Player × GameStore × Store
unfolding join_limited
join_room m req s tables =
    let (res, s') = join_limited m.down m.enforcing (host_limit m tables) req s in
    (res, s', plans_after m req s tables)

-- A player's token, as VerifyPlayerToken reads it.
pub record PlayerClaims : Type 0 where
  pub player_id : ℕ
  pub room_id : ℕ

abbrev pub stays_seated : Bool → Option Room → Bool
stays_seated unload none = false
stays_seated unload (some r) = is_active r.status || unload && is_waiting r.status

abbrev pub is_member : PlayerClaims → Player → Bool
is_member t p = p.id == t.player_id && p.room_id == t.room_id

-- LeaveRoom: a running game keeps the row, and so does a lobby whose page was only unloaded.
unfoldable pub leave_room : Faults → Option PlayerClaims → ℕ → Bool → Play (Unit {0})
unfolding update_players remove_players
leave_room down token room unload = do
  t ← or_fail token token_invalid
  guard (t.room_id == room) token_room_mismatch
  found ← gets (λ s. if down (find_room room) then none else find (room_is room) s.rooms)
  if stays_seated unload found
      then (stmt down (update_player t.player_id)
          >> modify (update_players (is_member t) (λ p. record p { is_connected = false })))
      else (stmt down (delete_player t.player_id) >> modify (remove_players (is_member t)))

-- reconnectPlayer, on the row that its caller has read.
unfoldable pub reconnect_player : Faults → Player → GameStore → GameStore
unfolding update_players
reconnect_player down p s =
    if p.is_connected || down (update_player p.id)
    then s
    else update_players (λ x. x.id == p.id && not x.is_connected)
        (λ x. record x { is_connected = true }) s

abbrev pub deal : ℕ → Player → Player
deal question p = record p { current_question_id = some question; question_active_until = none }

abbrev pub started : Room → Room
started r = record r {
  status = active;
  current_question_index = word - 1;
  current_question_id = none;
}

abbrev pub deal_head : Faults → ℕ → List Question → Play (Unit {0})
deal_head down room [] = return tt
deal_head down room (q ∷ _) =
    stmt down (deal_players room) >> modify (update_players (sits_in room) (deal q.id))

-- A solo game gives every player the first question, and starts no clock.
unfoldable pub deal_first : Faults → Room → Play (Unit {0})
unfolding quiz_questions update_players
deal_first down r = do
  qs ← gets (quiz_questions r.quiz_id)
  elim (down (find_questions r.quiz_id)) [ true ↦ return tt | false ↦ deal_head down r.id qs ]

-- The transaction of StartGame.
unfoldable pub start_tx : Faults → Room → Play Room
unfolding deal_first remove_players update_room_row
start_tx down room = do
  stmt down (lock_room room.id)
  found ← gets (λ s. find (room_is room.id) s.rooms)
  locked ← or_fail found db_error
  guard (is_waiting locked.status) not_waiting
  stmt down (delete_players locked.id)
  modify (remove_players (λ p. p.room_id == locked.id && not p.is_connected))
  stmt down (update_room locked.id)
  modify (update_room_row locked.id (λ _. started locked))
  elim (player_paced room.game_mode) [ true ↦ deal_first down locked | false ↦ return tt ]
  return (started locked)

unfoldable pub start_game : Faults → ℕ → ℕ → GameStore → Result Error Room × GameStore
start_game down host id s = elim (hosted_room down host id s) [
  | err e ↦ (err e, s)
  | ok (room, s₁) ↦
      if is_waiting room.status
      then transaction down (start_tx down room) s₁
      else (err not_waiting, s₁)
]

unfoldable pub update_room_privacy : Faults → ℕ → ℕ → Bool → Play (Unit {0})
unfolding update_room_row
update_room_privacy down host id private = do
  room ← hosted_room down host id
  guard (is_waiting room.status) not_waiting
  stmt down (update_room room.id)
  modify (update_room_row room.id (λ r. record r { is_private = private }))
