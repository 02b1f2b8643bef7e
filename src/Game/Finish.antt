-- ===== src/Game/Finish.antt =====
-- internal/handler/quiz.go (EndGame, finalizeRoom, CorrectAnswerCounts, archivedRankings,
-- archiveGameLogs): a game ends once, is archived, and its rows are cleaned up.
use koviobe.Base.{
  ℕ, Bool, true, false, ◌&&◌, not, none, some, List, [], ◌∷◌, map, ◌==◌, if◌then◌else◌, find, count,
  select, length, Result, ok, err, ◌>>=◌, ◌>>◌, return, gets, modify, or_fail,
}
use koviobe.Model.Errors.{
  Error, Faults, db_error, find_room, update_room, find_players, count_answers, find_session,
  insert_session, delete_players, delete_answers,
}
use koviobe.Model.Game.{
  Room, EndReason, by_host, Player, AnswerLog, FinalRanking, GameSession, GameStore, finished,
}
use koviobe.Model.Store.{stmt}
use koviobe.Game.Tables.{
  Play, room_is, sits_in, is_finished, update_room_row, remove_players, hosted_room,
}

abbrev pub finished_room : EndReason → Room → Room
finished_room reason r = record r {
  status = finished;
  current_question_id = none;
  ended_reason = reason;
}

-- The claim of finalizeRoom, with whether this caller is the one who finishes the room.
unfoldable pub claim_room : Faults → ℕ → EndReason → Play Bool
unfolding update_room_row
claim_room down room reason = do
  stmt down (update_room room)
  found ← gets (λ s. find (room_is room) s.rooms)
  elim found [
    | none ↦ return false
    | some r ↦
        if is_finished r.status
        then return false
        else modify (update_room_row room (finished_room reason)) >> return true
  ]

abbrev pub session_of : ℕ → GameSession → Bool
session_of room g = g.room_id == room

-- What archivedRankings reads, [] where there is no archive or it cannot be read.
unfoldable pub archived_rankings : Faults → ℕ → GameStore → List FinalRanking
archived_rankings down room s =
    if down (find_session room)
    then []
    else elim (find (session_of room) s.sessions) [ none ↦ [] | some g ↦ g.rankings ]

abbrev pub is_right : ℕ → ℕ → AnswerLog → Bool
is_right room player l = l.room_id == room && l.player_id == player && l.is_correct

-- CorrectAnswerCounts, at one player; a query that fails counts 0 for everyone.
unfoldable pub correct_answers : Faults → ℕ → ℕ → GameStore → ℕ
correct_answers down room player s =
    if down (count_answers room) then 0 else count (is_right room player) s.answer_logs

abbrev pub ranking : Faults → ℕ → GameStore → Player → FinalRanking
ranking down room s p = record {
  nickname = p.nickname;
  score = p.score;
  correct_answers = correct_answers down room p.id s;
}

-- The players of the room as finalizeRoom reads them; a query that fails reads none.
abbrev pub roster : Faults → ℕ → GameStore → List Player
roster down room s = if down (find_players room) then [] else select (sits_in room) s.players

-- How sort.Slice orders the rankings by score: it may leave equal scores in any order.
abbrev pub Sorter : Type 0
Sorter = List FinalRanking → List FinalRanking

abbrev pub session : ℕ → Room → List FinalRanking → ℕ → GameSession
session now r rankings players = record {
  room_id = r.id;
  host_id = r.host_id;
  quiz_id = r.quiz_id;
  rankings = rankings;
  player_count = players;
  ended_at = now;
}

-- archiveGameLogs, under the unique index on room_id, with whether the archive was written.
unfoldable pub archive_game_logs :
    Faults → ℕ → Room → List FinalRanking → ℕ → GameStore → Bool × GameStore
archive_game_logs down now r rankings players s = elim (find (session_of r.id) s.sessions) [
  | some _ ↦ (false, s)
  | none ↦
      if down (insert_session r.id)
      then (false, s)
      else (true, record s { sessions = session now r rankings players ∷ s.sessions })
]

-- What finalizeRoom returns: the rankings, whether the room had ended before, and whether the
-- clean-up is due.
pub record Finalized : Type 0 where
  pub rankings : List FinalRanking
  pub already_ended : Bool
  pub cleans_up : Bool

-- The part of finalizeRoom behind its claim.
unfoldable pub close_room : Faults → ℕ → Sorter → Room → GameStore → Finalized × GameStore
unfolding archive_game_logs
close_room down now sorted r s =
    let rankings = sorted (map (ranking down r.id s) (roster down r.id s)) in
    let (archived, s') = archive_game_logs down now r rankings (length (roster down r.id s)) s in
    (record { rankings = rankings; already_ended = false; cleans_up = archived }, s')

unfoldable pub taken_room : Faults → ℕ → EndReason → Play (Room × Bool)
unfolding claim_room
taken_room down room reason = do
  found ← gets (λ s. find (room_is room) s.rooms)
  stmt down (find_room room)
  r ← or_fail found db_error
  mine ← claim_room down room reason
  return (r, mine)

abbrev pub replayed : Faults → ℕ → GameStore → Finalized
replayed down room s = record {
  rankings = archived_rankings down room s;
  already_ended = true;
  cleans_up = false;
}

abbrev pub finish_taken :
    Faults → ℕ → Sorter → Room → Bool → GameStore → Result Error Finalized × GameStore
finish_taken down now sorted r true s = let (z, s') = close_room down now sorted r s in (ok z, s')
finish_taken down now sorted r false s = (ok (replayed down r.id s), s)

-- finalizeRoom, up to the clean-up that it starts.
unfoldable pub finalize_room :
    Faults → ℕ → Sorter → ℕ → EndReason → GameStore → Result Error Finalized × GameStore
unfolding taken_room
finalize_room down now sorted room reason s = elim (taken_room down room reason s) [
  | err e ↦ (err e, s)
  | ok ((r, mine), s₁) ↦ finish_taken down now sorted r mine s₁
]

abbrev pub log_in : ℕ → AnswerLog → Bool
log_in room l = l.room_id == room

abbrev pub drop_players : Faults → ℕ → GameStore → GameStore
drop_players down room s = if down (delete_players room) then s else remove_players (sits_in room) s

abbrev pub drop_logs : Faults → ℕ → GameStore → GameStore
drop_logs down room s =
    if down (delete_answers room)
    then s
    else record s { answer_logs = select (λ l. not (log_in room l)) s.answer_logs }

-- The goroutine that finalizeRoom starts: two deletions, each of which may fail.
unfoldable pub clean_up : Faults → ℕ → GameStore → GameStore
unfolding remove_players
clean_up down room s = drop_logs down room (drop_players down room s)

unfoldable pub end_game :
    Faults → ℕ → Sorter → ℕ → ℕ → GameStore → Result Error Finalized × GameStore
unfolding finalize_room
end_game down now sorted host room s = elim (hosted_room down host room s) [
  | err e ↦ (err e, s)
  | ok (r, s₁) ↦ finalize_room down now sorted r.id by_host s₁
]
