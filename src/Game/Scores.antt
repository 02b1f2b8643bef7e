-- ===== src/Game/Scores.antt =====
-- The books of a live game: the score on a player's row is the sum of the points in the log.
pub mod Keep
pub mod Seats
pub mod Points
pub mod Kept
pub mod Once
use koviobe.Base.{
  refl, arith, false, ℕ, ◌+◌, ◌%◌, ◌<◌, ◌≡◌, Bool, true, ◌&&◌, List, [], ◌∷◌, some, find, ◌==◌,
  if◌then◌else◌, word,
}
use koviobe.Base.Rows.{All}
use koviobe.Model.Game.{Room, Player, AnswerLog, GameStore}
use koviobe.Game.Tables.{player_is}
use koviobe.Game.Moves.{is_live}

abbrev pub earned_in : ℕ → ℕ → AnswerLog → Bool
earned_in room player l = l.room_id == room && l.player_id == player

-- The points that the log has for a player in a room.
unfoldable pub earned : ℕ → ℕ → List AnswerLog → ℕ
earned room player [] = 0
earned room player (l ∷ ls) =
    let rest = earned room player ls in
    if earned_in room player l then l.points_earned + rest else rest

-- While a room is open, a score in it agrees with a sum.
abbrev pub Balances : Bool → ℕ → ℕ → Type 0
Balances true score sum = score % word ≡ sum % word
Balances false score sum = Unit {0}

pub Balances-intro :
    (on : Bool) (score sum : ℕ) → (on ≡ true → score % word ≡ sum % word) → Balances on score sum
Balances-intro true score sum h = h refl
Balances-intro false score sum h = tt

pub Balances-elim :
    (on : Bool) (score sum : ℕ) → Balances on score sum → on ≡ true → score % word ≡ sum % word
Balances-elim true score sum h e = h
Balances-elim false score sum h e = absurd (ground (arith, e))

-- A player's row is the only one with its id, and while the room goes on its score is what the log
-- has for it.
pub record Fair (players : List Player) (rooms : List Room) (logs : List AnswerLog)
    (next_player next_room : ℕ) (x : Player) : Type 0 where
  pub found : find (player_is x.id) players ≡ some x
  pub known : x.id < next_player
  pub lodged : x.room_id < next_room
  pub scored : Balances (is_live rooms x.room_id) x.score (earned x.room_id x.id logs)

pub record Sound (s : GameStore) : Type 0 where
  pub players : All (Fair s.players s.rooms s.answer_logs s.next_player s.next_room) s.players
  pub logs : All (λ l. l.player_id < s.next_player) s.answer_logs
  pub rooms : All (λ r. r.id < s.next_room) s.rooms
