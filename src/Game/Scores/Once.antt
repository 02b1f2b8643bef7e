-- ===== src/Game/Scores/Once.antt =====
-- An answer is logged once.
use koviobe.Base.{
  ℕ, ◌≡◌, inl, inr, Bool, true, not, none, some, List, ◌∷◌, find, select, arith, Bool-cases,
}
use koviobe.Base.Rows.{All, All-map, All-select, find-select}
use koviobe.Model.Game.{AnswerLog, GameStore}
use koviobe.Game.Answer.{is_answer}
use koviobe.Game.Finish.{log_in}
use koviobe.Game.Tables.{update_room_row, update_players, remove_players}
use koviobe.Game.Moves.{
  Move, Move.room_changes, Move.room_opens, Move.player_changes, Move.player_joins,
  Move.player_leaves, Move.answer_counts, Move.game_archived, Move.logs_dropped, Move.claims_change,
  Moves_keep,
}
use koviobe.Game.Steps.{Reach, Reach-Moves}

-- Every row of the log is the only one for its player and its question.
abbrev pub OnlyOne : List AnswerLog → AnswerLog → Type 0
OnlyOne logs l = find (is_answer l.player_id l.question_id) logs ≡ some l

abbrev pub Once : GameStore → Type 0
Once s = All (OnlyOne s.answer_logs) s.answer_logs

logged-Once :
    (l : AnswerLog) (logs : List AnswerLog)
    → find (is_answer l.player_id l.question_id) logs ≡ none
    → All (OnlyOne logs) logs
    → All (OnlyOne (l ∷ logs)) (l ∷ logs)
logged-Once l logs new a = (
  unfold find in ground arith,
  All-map (OnlyOne logs) (OnlyOne (l ∷ logs))
      (λ m p. elim (Bool-cases (is_answer m.player_id m.question_id l)) [
        | inr e ↦ unfold find in ground (arith, e, p)
        | inl e ↦
            let a : l.player_id ≡ m.player_id = ground (arith, e) in
            let b : l.question_id ≡ m.question_id = ground (arith, e) in
            let none_there : find (is_answer m.player_id m.question_id) logs ≡ none =
              rw (← a, ← b) new in
            absurd (ground (arith, p, none_there))
      ])
      logs a,
)

dropped-Once :
    (room : ℕ) (logs : List AnswerLog)
    → All (OnlyOne logs) logs
    → All
        (OnlyOne (select (λ l. not (log_in room l)) logs))
        (select (λ l. not (log_in room l)) logs)
dropped-Once room logs a =
    let stays : AnswerLog → Bool = λ l. not (log_in room l) in
    All-map (λ l. OnlyOne logs l × (stays l ≡ true)) (OnlyOne (select stays logs))
      (λ l p. find-select (is_answer l.player_id l.question_id) stays logs l p.0 p.1)
      (select stays logs) (All-select (OnlyOne logs) stays logs a)

Move-Once : (s t : GameStore) → Move s t → Once s → Once t
unfolding update_room_row update_players remove_players
Move-Once s t (room_changes u id f keep edge) h = h
Move-Once s t (room_opens u r new waits) h = h
Move-Once s t (player_changes u q f same) h = h
Move-Once s t (player_joins u r x found lobby new zero) h = h
Move-Once s t (player_leaves u q) h = h
Move-Once s t (answer_counts u r x f l found runs row home new keep sum) h =
    logged-Once l u.answer_logs new h
Move-Once s t (game_archived u g new) h = h
Move-Once s t (logs_dropped u room closed) h = dropped-Once room u.answer_logs h
Move-Once s t (claims_change u cs) h = h

-- Whatever Redis answers, forgets or refuses: if the log has at most one answer of each player to each
-- question, it has at most one after any number of steps of the game.
pub Reach-Once : (s t : GameStore) → Reach s t → Once s → Once t
Reach-Once s t r h = Moves_keep Once Move-Once (Reach-Moves r) h
