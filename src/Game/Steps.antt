-- ===== src/Game/Steps.antt =====
-- The game handlers as steps of one system, in any order and under any faults. What finalizeRoom
-- does is cut where other requests can come between: the claim of the room, its closing, which the
-- caller that won the claim goes on to, and the clean-up, whose two deletions run behind it. The
-- UPDATE of NextQuestion is also a step of its own, for a room that was read at whatever time before.
use koviobe.Base.{ℕ, ◌≡◌, Bool, false, Option, not, select}
use koviobe.Model.Errors.{Faults}
use koviobe.Model.Game.{Room, Player, Question, EndReason, AnswerClaim, GameStore}
use koviobe.Game.Scoring.{Judge}
use koviobe.Game.Lobby.{
  JoinRoomReq, PlayerClaims, join_limited, leave_room, reconnect_player, start_game,
  update_room_privacy,
}
use koviobe.Game.Rounds.{activate, next_question, end_question}
use koviobe.Game.Ask.{get_player_question}
use koviobe.Game.Answer.{SubmitAnswerReq}
use koviobe.Game.Submit.{submit_answer}
use koviobe.Game.Finish.{claim_room, close_room, clean_up, Sorter, finalize_room, end_game}
use koviobe.Game.Moves.{
  Moves, Moves-trans, no_move, one-Move, run, run-Moves, is_live, Move.claims_change,
}
use koviobe.Game.Moves.Lobby.{join_limited-Moves, leave_room-Moves, reconnect_player-Moves}
use koviobe.Game.Moves.Start.{start_game-Moves, update_room_privacy-Moves}
use koviobe.Game.Moves.Rounds.{
  activate-Moves, next_question-Moves, end_question-Moves, get_player_question-Moves,
}
use koviobe.Game.Moves.Answer.{submit_answer-Moves}
use koviobe.Game.Moves.Finish.{
  claim_room-Moves, close_room-Moves, clean_up-Moves, finalize_room-Moves, end_game-Moves,
}

pub data Step : GameStore → GameStore → Type 0 where
  joins :
      (down : Faults) (enforcing : Bool) (limit_of : ℕ → ℕ) (req : JoinRoomReq) (s : GameStore)
      → Step s (join_limited down enforcing limit_of req s).1
  leaves :
      (down : Faults) (token : Option PlayerClaims) (room : ℕ) (unload : Bool) (s : GameStore)
      → Step s (run (leave_room down token room unload) s)
  reconnects : (down : Faults) (p : Player) (s : GameStore) → Step s (reconnect_player down p s)
  hides :
      (down : Faults) (host room : ℕ) (private : Bool) (s : GameStore)
      → Step s (run (update_room_privacy down host room private) s)
  starts : (down : Faults) (host room : ℕ) (s : GameStore) → Step s (start_game down host room s).1
  goes_on :
      (down : Faults) (now host room : ℕ) (s : GameStore)
      → Step s (run (next_question down now host room) s)
  opens :
      (down : Faults) (now room index : ℕ) (q : Question) (s : GameStore)
      → Step s (run (activate down now room index q) s)
  reveals :
      (down : Faults) (host room : ℕ) (s : GameStore) → Step s (run (end_question down host room) s)
  asks :
      (down : Faults) (now : ℕ) (token : Option PlayerClaims) (room index : ℕ) (s : GameStore)
      → Step s (get_player_question down now token room index s).1
  submits :
      (down : Faults) (now : ℕ) (j : Judge) (token : Option PlayerClaims) (req : SubmitAnswerReq)
      (s : GameStore)
      → Step s (submit_answer down now j token req s).1
  forgets :
      (expired : AnswerClaim → Bool) (s : GameStore)
      → Step s (record s { claims = select (λ c. not (expired c)) s.claims })
  claims :
      (down : Faults) (room : ℕ) (reason : EndReason) (s : GameStore)
      → Step s (run (claim_room down room reason) s)
  finalizes :
      (down : Faults) (now : ℕ) (sorted : Sorter) (room : ℕ) (reason : EndReason) (s : GameStore)
      → Step s (finalize_room down now sorted room reason s).1
  ends :
      (down : Faults) (now : ℕ) (sorted : Sorter) (host room : ℕ) (s : GameStore)
      → Step s (end_game down now sorted host room s).1
  closes :
      (down : Faults) (now : ℕ) (sorted : Sorter) (r : Room) (s : GameStore)
      → is_live s.rooms r.id ≡ false
      → Step s (close_room down now sorted r s).1
  cleans :
      (down : Faults) (room : ℕ) (s : GameStore)
      → is_live s.rooms room ≡ false
      → Step s (clean_up down room s)

-- What comes of a state by any number of steps.
pub data Reach (s : GameStore) : GameStore → Type 0 where
  here : Reach s s
  next : {t u : GameStore} → Reach s t → Step t u → Reach s u

-- Every step is a sequence of moves.
pub Step-Moves : {s t : GameStore} → Step s t → Moves s t
Step-Moves (joins down e limit req s) = join_limited-Moves down e limit req s
Step-Moves (leaves down t room unload s) = leave_room-Moves down t room unload s
Step-Moves (reconnects down p s) = reconnect_player-Moves down p s
Step-Moves (hides down host room private s) = update_room_privacy-Moves down host room private s
Step-Moves (starts down host room s) = start_game-Moves down host room s
Step-Moves (goes_on down now host room s) = next_question-Moves down now host room s
Step-Moves (opens down now room index q s) =
    run-Moves (activate down now room index q) s
      (λ u s' h. activate-Moves down now room index q s s' h)
Step-Moves (reveals down host room s) = end_question-Moves down host room s
Step-Moves (asks down now t room index s) = get_player_question-Moves down now t room index s
Step-Moves (submits down now j t req s) = submit_answer-Moves down now j t req s
Step-Moves (forgets expired s) = one-Move (claims_change s _)
Step-Moves (claims down room reason s) =
    run-Moves (claim_room down room reason) s (λ m s' h. claim_room-Moves down room reason s m s' h)
Step-Moves (finalizes down now sorted room reason s) =
    finalize_room-Moves down now sorted room reason s
Step-Moves (ends down now sorted host room s) = end_game-Moves down now sorted host room s
Step-Moves (closes down now sorted r s h) = close_room-Moves down now sorted r s
Step-Moves (cleans down room s closed) = clean_up-Moves down room s closed

pub Reach-Moves : {s t : GameStore} → Reach s t → Moves s t
Reach-Moves {s} here = no_move s
Reach-Moves (next r st) = Moves-trans (Reach-Moves r) (Step-Moves st)
