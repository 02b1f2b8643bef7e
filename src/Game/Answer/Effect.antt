-- ===== src/Game/Answer/Effect.antt =====
-- What the two branches of SubmitAnswer's transaction do to the tables, when they record an answer.
use koviobe.Base.{
  ◌≤◌, ◌*◌, second, ◌<◌, ◌^◌, ℕ, ◌+◌, ◌≡◌, ◌⊎◌, inl, inr, refl, Bool, true, none, some, List, ◌∷◌,
  find, update_where, add_int, ok, err, arith, Result-cases, Option-cases,
}
use koviobe.Model.Errors.{room_not_active, room_finished, Error, Faults}
use koviobe.Model.Game.{Room, RoomStatus, Player, Question, AnswerLog, GameStore, active}
use koviobe.Game.Scoring.{Marked, mark_solo, mark_classic}
use koviobe.Game.Tables.{room_is, player_is, update_players}
use koviobe.Game.Lobby.{PlayerClaims}
use koviobe.Game.Rounds.{is_current}
use koviobe.Game.Answer.{
  raise, SubmitAnswerReq, Answered, is_answer, insert_log, lock_running, check_running, answer_log,
  next_of, advanced, answer_solo, record_classic_answer, answer_classic,
}

pub insert_log-ok :
    (down : Faults) (l : AnswerLog) (s s' : GameStore)
    → insert_log down l s ≡ ok (tt, s')
    → (find (is_answer l.player_id l.question_id) s.answer_logs ≡ none)
      × (s' ≡ record s { answer_logs = l ∷ s.answer_logs })
unfolding insert_log
insert_log-ok down l s s' h =
    elim (Option-cases (find (is_answer l.player_id l.question_id) s.answer_logs)) [
      | inl p ↦ (p, ground (arith, h, p))
      | inr (x, p) ↦ absurd (ground (arith, h, p))
    ]

check_running-cases :
    (st : RoomStatus)
    → (st ≡ active) ⊎ ((e : Error) × ((s : GameStore) → check_running st s ≡ err e))
check_running-cases active = inl refl
check_running-cases RoomStatus.waiting = inr (room_not_active, λ s. refl)
check_running-cases RoomStatus.finished = inr (room_finished, λ s. refl)

pub lock_running-ok :
    (down : Faults) (room : ℕ) (s : GameStore) (r : Room) (s' : GameStore)
    → lock_running down room s ≡ ok (r, s')
    → (find (room_is room) s.rooms ≡ some r) × (r.status ≡ active) × (s' ≡ s)
unfolding lock_running
lock_running-ok down room s r s' h = elim (Option-cases (find (room_is room) s.rooms)) [
  | inl p ↦ absurd (ground (arith, h, p))
  | inr (x, p) ↦ elim (check_running-cases x.status) [
    | inr (e, q) ↦ absurd (ground (arith, h, p, q s))
    | inl q ↦
        let same : r ≡ x = ground (arith, h, p, q) in
        (ground (arith, same, p), rw same q, ground (arith, h, p, q))
  ]
]

-- What an answer in a solo game does: the player's row moves on, with the score raised by what the
-- answer earns, and the answer is logged.
pub record SoloAnswer (now : ℕ) (correct : Bool) (t : PlayerClaims) (room : ℕ) (q : Question)
    (qs : List Question) (req : SubmitAnswerReq) (s : GameStore) (a : Answered) (s' : GameStore)
    : Type 0 where
  pub player : Player
  pub row : find (player_is t.player_id) s.players ≡ some player
  pub home : player.room_id ≡ t.room_id
  pub locked : Room
  pub room_row : find (room_is room) s.rooms ≡ some locked
  pub running : locked.status ≡ active
  pub on_question : is_current player.current_question_id req.question_id ≡ true
  pub marks : a.marked ≡ mark_solo now player.question_active_until q correct
  pub score_after : a.score ≡ add_int player.score a.marked.points_earned
  pub fresh : find (is_answer player.id req.question_id) s.answer_logs ≡ none
  pub after : s' ≡ record s {
    players =
        update_where
          (player_is player.id)
          (advanced a.score (next_of req.question_id qs))
          s.players;
    answer_logs = answer_log room player.id req a.marked ∷ s.answer_logs;
  }

pub answer_solo-SoloAnswer :
    (down : Faults) (now : ℕ) (correct : Bool) (t : PlayerClaims) (room : ℕ) (q : Question)
    (qs : List Question) (req : SubmitAnswerReq) (s : GameStore) (a : Answered) (s' : GameStore)
    → answer_solo down now correct t room q qs req s ≡ ok (a, s')
    → SoloAnswer now correct t room q qs req s a s'
unfolding answer_solo update_players
answer_solo-SoloAnswer down now correct t room q qs req s a s' h =
    elim (Option-cases (find (player_is t.player_id) s.players)) [
      | inl p ↦ absurd (ground (arith, h, p))
      | inr (x, p) ↦ elim (Result-cases (lock_running down room s)) [
        | inl (e, k) ↦ absurd (ground (arith, h, p, k))
        | inr ((r, s₁), k) ↦
            let (found, runs, same) = lock_running-ok down room s r s₁ k in
            let m = mark_solo now x.question_active_until q correct in
            let s₂ =
              update_players (player_is x.id)
                (advanced (add_int x.score m.points_earned) (next_of req.question_id qs)) s in
            elim (Result-cases (insert_log down (answer_log room x.id req m) s₂)) [
              | inl (e, i) ↦ absurd (ground (arith, h, p, k, same, i))
              | inr ((u, s₃), i) ↦
                  let (new, put) = insert_log-ok down (answer_log room x.id req m) s₂ s₃ i in
                  let marks : a.marked ≡ m = ground (arith, h, p, k, same, i) in
                  record {
                    player = x;
                    row = p;
                    home = ground (arith, h, p);
                    locked = r;
                    room_row = found;
                    running = runs;
                    on_question = ground (arith, h, p, k);
                    marks = marks;
                    score_after = ground (arith, h, p, k, same, i);
                    fresh = new;
                    after = ground (arith, h, p, k, same, i, put);
                  }
            ]
      ]
    ]

-- What recordClassicAnswer does.
pub record Recorded (room player : ℕ) (req : SubmitAnswerReq) (m : Marked) (s : GameStore)
    (score : ℕ) (s' : GameStore) : Type 0 where
  pub row : Player
  pub found : find (player_is player) s.players ≡ some row
  pub home : row.room_id ≡ room
  pub score_after : score ≡ row.score + m.points_earned
  pub fits : (m.points_earned ≡ 0) ⊎ (row.score + m.points_earned < 2 ^ 63)
  pub fresh : find (is_answer player req.question_id) s.answer_logs ≡ none
  pub after : s' ≡ record s {
    players = update_where (player_is player) (raise m.points_earned) s.players;
    answer_logs = answer_log room player req m ∷ s.answer_logs;
  }

record_classic_answer-Recorded :
    (down : Faults) (room player : ℕ) (req : SubmitAnswerReq) (m : Marked) (s : GameStore)
    (score : ℕ) (s' : GameStore)
    → record_classic_answer down room player req m s ≡ ok (score, s')
    → Recorded room player req m s score s'
unfolding record_classic_answer update_players
record_classic_answer-Recorded down room player req m s score s' h =
    elim (Option-cases (find (player_is player) s.players)) [
      | inl p ↦ absurd (ground (arith, h, p))
      | inr (x, p) ↦ elim (Result-cases (insert_log down (answer_log room player req m) s)) [
        | inl (e, i) ↦ absurd (ground (arith, h, p, i))
        | inr ((u, s₁), i) ↦
            let (new, put) = insert_log-ok down (answer_log room player req m) s s₁ i in
            record {
              row = x;
              found = p;
              home = ground (arith, h, p);
              score_after = ground (arith, h, p, i);
              fits = ground (arith, h, p, i);
              fresh = new;
              after = ground (arith, h, p, i, put);
            }
      ]
    ]

-- What an answer does in a game that its host leads.
pub record ClassicAnswer (now : ℕ) (correct : Bool) (t : PlayerClaims) (room : ℕ) (q : Question)
    (req : SubmitAnswerReq) (s : GameStore) (a : Answered) (s' : GameStore) : Type 0 where
  pub locked : Room
  pub room_row : find (room_is room) s.rooms ≡ some locked
  pub running : locked.status ≡ active
  pub on_question : is_current locked.current_question_id req.question_id ≡ true
  pub until : ℕ
  pub open_until : locked.question_active_until ≡ some until
  pub on_time : now ≤ until + 2 * second
  pub marks : a.marked ≡ mark_classic now until q correct
  pub recorded : Recorded room t.player_id req a.marked s a.score s'

-- When the transaction of SubmitAnswer records an answer in a classic game, the room was running, the
-- question was the one that is open and its deadline had passed by two seconds at most, which are the
-- grace that the code gives; the answer is marked by
-- mark_classic and logged, as the only one of the player to the question; and the score of the
-- player, who is in the room, is raised by what the answer earned. Nothing else changes.
pub answer_classic-ClassicAnswer :
    (down : Faults) (now : ℕ) (correct : Bool) (t : PlayerClaims) (room : ℕ) (q : Question)
    (req : SubmitAnswerReq) (s : GameStore) (a : Answered) (s' : GameStore)
    → answer_classic down now correct t room q req s ≡ ok (a, s')
    → ClassicAnswer now correct t room q req s a s'
unfolding answer_classic
answer_classic-ClassicAnswer down now correct t room q req s a s' h =
    elim (Result-cases (lock_running down room s)) [
      | inl (e, k) ↦ absurd (ground (arith, h, k))
      | inr ((r, s₁), k) ↦
          let (found, runs, same) = lock_running-ok down room s r s₁ k in
          elim (Option-cases r.question_active_until) [
            | inl p ↦ absurd (ground (arith, h, k, p))
            | inr (until, p) ↦
                let m = mark_classic now until q correct in
                elim (Result-cases (record_classic_answer down room t.player_id req m s)) [
                  | inl (e, i) ↦ absurd (ground (arith, h, k, same, p, i))
                  | inr ((score, s₂), i) ↦
                      let marks : a.marked ≡ m = ground (arith, h, k, same, p, i) in
                      let scored : a.score ≡ score = ground (arith, h, k, same, p, i) in
                      let last : s' ≡ s₂ = ground (arith, h, k, same, p, i) in
                      record {
                        locked = r;
                        room_row = found;
                        running = runs;
                        on_question = ground (arith, h, k);
                        until = until;
                        open_until = p;
                        on_time = ground (arith, h, k, p);
                        marks = marks;
                        recorded =
                            rw (marks, scored, last)
                              (record_classic_answer-Recorded down room t.player_id req m s score s₂
                                i);
                      }
                ]
          ]
    ]
