-- ===== src/Game/Moves.antt =====
-- The changes that the game handlers make to the tables, a constructor for each kind of statement,
-- with what the code around the statement has checked. Every handler is a sequence of them.
pub mod Lobby
pub mod Start
pub mod Rounds
pub mod Answer
pub mod Finish
use koviobe.Base.{
  err, Result-cases, inl, inr, ok, ℕ, suc, ◌≡◌, Bool, false, not, none, some, List, ◌∷◌, find,
  select, update_where, ◌+◌, ◌%◌, word,
}
use koviobe.Model.Game.{
  Room, RoomStatus, Player, AnswerLog, AnswerClaim, GameSession, GameStore, waiting, active,
  finished,
}
use koviobe.Model.Errors.{Faults}
use koviobe.Model.Store.{transaction}
use koviobe.Model.Rollback.{transaction-ok, transaction-cases}
use koviobe.Game.Tables.{
  Play, room_is, player_is, is_finished, update_room_row, update_players, remove_players,
}
use koviobe.Game.Answer.{is_answer}
use koviobe.Game.Finish.{session_of, log_in}

-- A room that exists and has not finished.
unfoldable pub is_live : List Room → ℕ → Bool
is_live rooms id = elim (find (room_is id) rooms) [
  | none ↦ false
  | some r ↦ not (is_finished r.status)
]

-- How the status of a room may change.
pub data Edge : RoomStatus → RoomStatus → Type 0 where
  stays : (st : RoomStatus) → Edge st st
  starts : Edge waiting active
  closes : Edge waiting finished
  ends : Edge active finished

pub data Move : GameStore → GameStore → Type 0 where
  room_changes :
      (s : GameStore) (id : ℕ) (f : Room → Room)
      → ((r : Room) → r.id ≡ id → (f r).id ≡ id)
      → ((r : Room) → find (room_is id) s.rooms ≡ some r → Edge r.status (f r).status)
      → Move s (update_room_row id f s)
  room_opens :
      (s : GameStore) (r : Room)
      → r.id ≡ s.next_room
      → r.status ≡ waiting
      → Move s (record s { rooms = r ∷ s.rooms; next_room = suc s.next_room })
  player_changes :
      (s : GameStore) (p : Player → Bool) (f : Player → Player)
      → ((x : Player) → ((f x).id ≡ x.id) × ((f x).room_id ≡ x.room_id) × ((f x).score ≡ x.score))
      → Move s (update_players p f s)
  player_joins :
      (s : GameStore) (r : Room) (x : Player)
      → find (room_is x.room_id) s.rooms ≡ some r
      → r.status ≡ waiting
      → x.id ≡ s.next_player
      → x.score ≡ 0
      → Move s (record s { players = x ∷ s.players; next_player = suc s.next_player })
  player_leaves : (s : GameStore) (p : Player → Bool) → Move s (remove_players p s)
  answer_counts :
      (s : GameStore) (r : Room) (x : Player) (f : Player → Player) (l : AnswerLog)
      → find (room_is l.room_id) s.rooms ≡ some r
      → r.status ≡ active
      → find (player_is l.player_id) s.players ≡ some x
      → x.room_id ≡ l.room_id
      → find (is_answer l.player_id l.question_id) s.answer_logs ≡ none
      → ((y : Player) → ((f y).id ≡ y.id) × ((f y).room_id ≡ y.room_id))
      → (f x).score % word ≡ (x.score + l.points_earned) % word
      → Move s (record s {
        players = update_where (player_is l.player_id) f s.players;
        answer_logs = l ∷ s.answer_logs;
      })
  game_archived :
      (s : GameStore) (g : GameSession)
      → find (session_of g.room_id) s.sessions ≡ none
      → Move s (record s { sessions = g ∷ s.sessions })
  logs_dropped :
      (s : GameStore) (room : ℕ)
      → is_live s.rooms room ≡ false
      → Move s (record s { answer_logs = select (λ l. not (log_in room l)) s.answer_logs })
  claims_change : (s : GameStore) (cs : List AnswerClaim) → Move s (record s { claims = cs })

infixr 5 ◌then_move◌
pub data Moves : GameStore → GameStore → Type 0 where
  no_move : (s : GameStore) → Moves s s
  ◌then_move◌ : {s t u : GameStore} → Moves s t → Move t u → Moves s u

-- A property of the tables that every move keeps is kept by any number of them.
pub Moves_keep :
    (P : GameStore → Type 0)
    → ((s t : GameStore) → Move s t → P s → P t)
    → {s t : GameStore} → Moves s t
    → P s
    → P t
Moves_keep P keep (no_move s) h = h
Moves_keep P keep (ms then_move m) h = keep _ _ m (Moves_keep P keep ms h)

pub Moves-trans : {s t u : GameStore} → Moves s t → Moves t u → Moves s u
Moves-trans ms (no_move t) = ms
Moves-trans ms (ns then_move n) = Moves-trans ms ns then_move n

pub one-Move : {s t : GameStore} → Move s t → Moves s t
one-Move {s} m = no_move s then_move m

-- What the body of a transaction does, the transaction does or nothing is done.
pub transaction-Moves :
    {A : Type 0} (down : Faults) (body : Play A) (s : GameStore)
    → ((a : A) (s' : GameStore) → body s ≡ ok (a, s') → Moves s s')
    → Moves s (transaction down body s).1
transaction-Moves down body s h = elim (transaction-cases down body s) [
  | inl (e, p) ↦ rw p (no_move s)
  | inr (a, s', p) ↦ rw p (h a s' (transaction-ok down body s a s' p))
]

-- The tables after a handler whose writes are its last statement: on an error, as they were.
unfoldable pub run : {A : Type 0} → Play A → GameStore → GameStore
run m s = elim (m s) [ err e ↦ s | ok (a, s') ↦ s' ]

pub run-Moves :
    {A : Type 0} (m : Play A) (s : GameStore)
    → ((a : A) (s' : GameStore) → m s ≡ ok (a, s') → Moves s s')
    → Moves s (run m s)
unfolding run
run-Moves m s h = elim (Result-cases (m s)) [
  | inl (e, p) ↦ rw (run, p) (no_move s)
  | inr ((a, s'), p) ↦ rw (run, p) (h a s' p)
]
