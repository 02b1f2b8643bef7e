-- ===== src/Game/Scores/Kept.antt =====
-- The books are kept by every step of the game.
use koviobe.Model.Game.{GameStore}
use koviobe.Game.Moves.{
  Move, Move.room_changes, Move.room_opens, Move.player_changes, Move.player_joins,
  Move.player_leaves, Move.answer_counts, Move.game_archived, Move.logs_dropped, Move.claims_change,
  Moves_keep,
}
use koviobe.Game.Steps.{Reach, Reach-Moves}
use koviobe.Game.Scores.{Sound}
use koviobe.Game.Scores.Keep.{room_changes-Sound, room_opens-Sound, player_changes-Sound}
use koviobe.Game.Scores.Seats.{player_joins-Sound, player_leaves-Sound}
use koviobe.Game.Scores.Points.{answer_counts-Sound, logs_dropped-Sound}

Move-Sound : (s t : GameStore) → Move s t → Sound s → Sound t
Move-Sound s t (room_changes u id f keep edge) h = room_changes-Sound u id f keep edge h
Move-Sound s t (room_opens u r new waits) h = room_opens-Sound u r new h
Move-Sound s t (player_changes u q f same) h = player_changes-Sound u q f same h
Move-Sound s t (player_joins u r x found lobby new zero) h =
    player_joins-Sound u r x found new zero h
Move-Sound s t (player_leaves u q) h = player_leaves-Sound u q h
Move-Sound s t (answer_counts u r x f l found runs row home new keep sum) h =
    answer_counts-Sound u x f l row home keep sum h
Move-Sound s t (game_archived u g new) h = record {
  players = h.players;
  logs = h.logs;
  rooms = h.rooms;
}
Move-Sound s t (logs_dropped u room closed) h = logs_dropped-Sound u room closed h
Move-Sound s t (claims_change u cs) h = record {
  players = h.players;
  logs = h.logs;
  rooms = h.rooms;
}

-- Whatever requests arrive, in any order, and whatever statements fail on the way: if every player's
-- row is the only one with its id, and the score of every player in a room that has not finished is
-- the sum of the points that the answer log has for that player in that room (as 64-bit numbers),
-- then this is so again after any number of steps.
pub Reach-Sound : (s t : GameStore) → Reach s t → Sound s → Sound t
Reach-Sound s t r h = Moves_keep Sound Move-Sound (Reach-Moves r) h
