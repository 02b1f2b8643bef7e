-- ===== src/Tests/Games.antt =====
-- A quiz of two questions, played alone and in step with a host, and the theorems on the live game
-- applied to it.
use koviobe.License.Term.{is_expired}
use koviobe.Game.Rounds.{after_question, question_at, next_question}
use koviobe.Base.Floats.{
  float_add, float_div, float_mul, float_one, float_sub, low_bits, nearest, of_nat, round, truncate,
}
use koviobe.Game.Tables.{
  quiz_questions, in_order, insert_question, remove_players, update_players, update_room_row,
}
use koviobe.Model.Store.{transaction, committed}
use koviobe.License.Plans.{Setting, get_entitlements, ensure_free, entitlements_from_plan}
use koviobe.Tests.{shop}
use koviobe.Base.{
  ℕ, ◌≡◌, ◌≤◌, ◌-◌, ◌*◌, refl, arith, codes, true, false, none, some, [], ◌∷◌, count, find, ok, err,
  word, Text, second, not, ◌&&◌, text_eq, select, update_where, is_space, trim_left, trim_space,
  Result,
}
use koviobe.Model.Errors.{Error, room_not_active, no_faults}
use koviobe.Model.Game.{
  RoomStatus, Room, Question, Player, GameStore, by_host, license_expired, waiting, active,
}
use koviobe.Game.Scoring.{
  Judge, mark_solo, mark_classic, is_late, classic_ratio, evaluate_answer, response_ms, solo_ratio,
  speed_points,
}
use koviobe.Game.Lobby.{
  JoinRoomReq, PlayerClaims, join_limited, join_room, host_limit, plans_after, start_game,
  is_seated, joined_room, free_nickname, seat, seat_limit, start_tx, deal_first, insert_new_player,
  new_player,
}
use koviobe.Game.Ask.{
  get_player_question, asked_question, ensure_assigned, fetch, solo_question, start_clock,
}
use koviobe.Game.Answer.{
  SubmitAnswerReq, Answered, answer_classic, answer_solo, claim_answer, insert_log, lock_running,
  next_of, record_classic_answer, release_answer,
}
use koviobe.Game.Scoring.Bounds.{FairMark, marks_fair}
use koviobe.Game.Answer.Effect.{ClassicAnswer, answer_classic-ClassicAnswer}
use koviobe.Game.Submit.Progress.{Turn}
use koviobe.Game.Lobby.Seats.{join_room_capped}
use koviobe.Game.Submit.Retry.{Undone, submit_answer-Undone}
use koviobe.Game.Podium.{finalize_room_kept}
use koviobe.Game.Submit.{submit_answer, submission, record_answer, answer_tx, settle_claim}
use koviobe.Game.Finish.{
  Sorter, finalize_room, clean_up, Finalized, archive_game_logs, archived_rankings, claim_room,
  close_room, correct_answers, taken_room,
}
use koviobe.Game.Steps.{Reach, here, next, joins, starts, asks, submits, cleans}
use koviobe.Game.Scores.{Sound}
use koviobe.Game.Scores.Kept.{Reach-Sound}
use koviobe.Game.Scores.Once.{Once, Reach-Once}
use koviobe.Game.Moves.{is_live, Edge, run}
use koviobe.Game.Status.{status_of, Reach-refines}

abbrev pub question : ℕ → Text → Question
question id key = record {
  id = id;
  quiz_id = 5;
  kind = codes "multiple_choice";
  correct_answer = key;
  duration = 20;
  points = 1000;
  order = id;
  explanation = [];
}

abbrev pub game_room : Text → Room
game_room mode = record {
  id = 1;
  pin_code = codes "123456";
  quiz_id = 5;
  host_id = 7;
  status = waiting;
  ended_reason = by_host;
  is_private = true;
  game_mode = mode;
  current_question_id = none;
  current_question_index = word - 1;
  question_active_until = none;
}

abbrev pub hall : Text → GameStore
hall mode = record {
  rooms = game_room mode ∷ [];
  next_room = 2;
  players = [];
  next_player = 1;
  answer_logs = [];
  sessions = [];
  questions = question 2 (codes "B") ∷ question 1 (codes "A") ∷ [];
  claims = [];
}

abbrev pub judge : Judge
judge = record { fold = λ c. c; pins_meet = λ s t. false }

abbrev pub an : JoinRoomReq
an = record { pin_code = codes "123456"; nickname = codes "An" }

abbrev pub token : PlayerClaims
token = record { player_id = 1; room_id = 1 }

abbrev pub answer : ℕ → Text → SubmitAnswerReq
answer id option = record { question_id = id; selected_option = option }

-- A solo game up to the first answer.
abbrev solo : GameStore
solo = hall (codes "player_paced")

abbrev joined : GameStore
joined = (join_limited no_faults true (λ _. 20) an solo).1

abbrev running : GameStore
running = (start_game no_faults 7 1 joined).1

abbrev asked : GameStore
asked = (get_player_question no_faults (100 * second) (some token) 1 0 running).1

abbrev answered : GameStore
answered =
    (submit_answer no_faults (105 * second) judge (some token) (answer 1 (codes "A")) asked).1

game : Reach solo answered
game =
    next
      (next
        (next (next here (joins no_faults true (λ _. 20) an solo)) (starts no_faults 7 1 joined))
        (asks no_faults (100 * second) (some token) 1 0 running))
      (submits no_faults (105 * second) judge (some token) (answer 1 (codes "A")) asked)

Reach-Sound_example : Sound answered
Reach-Sound_example =
    Reach-Sound solo answered game (record { players = tt; logs = tt; rooms = (omega arith, tt) })

Reach-Once_example : Once answered
Reach-Once_example = Reach-Once solo answered game tt

waits : status_of solo.rooms 1 ≡ some waiting
unfolding status_of find
waits = refl

Reach-refines_example : (st : RoomStatus) × (status_of answered.rooms 1 ≡ some st) × Edge waiting st
Reach-refines_example = Reach-refines solo answered 1 waiting game waits (omega arith)

-- The room as `answered` leaves it, the score of its one player included.
abbrev podium : Finalized
podium = record {
  rankings = record { nickname = codes "An"; score = 875; correct_answers = 1 } ∷ [];
  already_ended = false;
  cleans_up = true;
}

abbrev keep_order : Sorter
keep_order rs = rs

ends_with_podium :
    (finalize_room no_faults (200 * second) keep_order 1 by_host answered).0 ≡ ok podium
unfolding finalize_room find submit_answer submission get_player_question start_game join_limited
    joined_room text_eq free_nickname transaction seat seat_limit count start_tx select update_where
    float_add float_div float_mul float_one float_sub low_bits nearest of_nat round truncate
    is_space trim_left trim_space answer_classic answer_solo claim_answer insert_log lock_running
    next_of record_classic_answer release_answer asked_question ensure_assigned fetch solo_question
    start_clock archive_game_logs archived_rankings claim_room close_room correct_answers taken_room
    deal_first insert_new_player after_question question_at classic_ratio evaluate_answer
    mark_classic mark_solo response_ms solo_ratio speed_points answer_tx record_answer settle_claim
    in_order insert_question quiz_questions remove_players update_players update_room_row committed
ends_with_podium = refl

abbrev over : GameStore
over = (finalize_room no_faults (200 * second) keep_order 1 by_host answered).1

closed : is_live over.rooms 1 ≡ false
unfolding is_live find finalize_room submit_answer submission get_player_question start_game
    join_limited joined_room text_eq free_nickname transaction seat seat_limit count start_tx select
    float_add float_div float_mul float_one float_sub low_bits nearest of_nat round truncate
    update_where is_space trim_left trim_space answer_classic answer_solo claim_answer insert_log
    lock_running next_of record_classic_answer release_answer asked_question ensure_assigned fetch
    solo_question start_clock archive_game_logs archived_rankings claim_room close_room
    correct_answers taken_room deal_first insert_new_player after_question question_at classic_ratio
    evaluate_answer mark_classic mark_solo response_ms solo_ratio speed_points answer_tx
    record_answer settle_claim in_order insert_question quiz_questions remove_players update_players
    update_room_row committed
closed = refl

finalize_room_kept_example :
    finalize_room no_faults (900 * second) keep_order 1 license_expired (clean_up no_faults 1 over)
    ≡ (
      ok (record { rankings = podium.rankings; already_ended = true; cleans_up = false }),
      clean_up no_faults 1 over,
    )
unfolding submit_answer submission find get_player_question start_game join_limited joined_room
    text_eq free_nickname transaction seat seat_limit count start_tx select update_where question_at
    float_add float_div float_mul float_one float_sub low_bits nearest of_nat round truncate
    is_space trim_left trim_space answer_classic answer_solo claim_answer insert_log lock_running
    next_of record_classic_answer release_answer asked_question ensure_assigned fetch solo_question
    start_clock deal_first insert_new_player after_question classic_ratio evaluate_answer
    mark_classic mark_solo response_ms solo_ratio speed_points answer_tx record_answer settle_claim
    in_order insert_question quiz_questions remove_players update_players update_room_row committed
finalize_room_kept_example =
    finalize_room_kept no_faults no_faults (200 * second) (900 * second) keep_order keep_order 1
      by_host license_expired answered (clean_up no_faults 1 over) podium (omega arith)
      ends_with_podium refl (next here (cleans no_faults 1 over closed)) refl refl refl

-- An answer in the lobby.
too_early :
    submit_answer no_faults (50 * second) judge (some token) (answer 1 (codes "A")) joined
    ≡ (err room_not_active, joined)
unfolding submit_answer submission find join_limited joined_room text_eq free_nickname transaction
    seat seat_limit count quiz_questions select record_answer answer_solo
too_early = refl

submit_answer-Undone_example : Undone no_faults room_not_active joined joined
submit_answer-Undone_example =
    submit_answer-Undone no_faults (50 * second) judge (some token) (answer 1 (codes "A")) joined
      room_not_active joined too_early

marks_fair_example :
    FairMark
      (question 1 (codes "A"))
      (mark_solo (105 * second) (some (120 * second)) (question 1 (codes "A")) true)
    × FairMark
        (question 1 (codes "A"))
        (mark_classic (105 * second) (120 * second) (question 1 (codes "A")) true)
    × ((mark_solo (105 * second) (some (120 * second)) (question 1 (codes "A")) true).is_correct
        ≡ true && not (is_late (120 * second) (105 * second)))
marks_fair_example =
    marks_fair (105 * second) (some (120 * second)) (120 * second) (question 1 (codes "A")) true
      (omega arith)

-- The player's turn at the first question.
abbrev first_turn : Turn token (answer 1 (codes "A")) asked
unfolding find get_player_question start_game join_limited joined_room text_eq free_nickname
    transaction seat seat_limit count start_tx select update_where question_at
first_turn = record {
  room = record (game_room (codes "player_paced")) { status = active };
  room_row = refl;
  running = refl;
  solo = refl;
  player = record {
    id = 1;
    room_id = 1;
    nickname = codes "An";
    score = 0;
    is_connected = true;
    current_question_id = some 1;
    question_active_until = some (120 * second);
  };
  row = refl;
  home = refl;
  current = refl;
  question = question 1 (codes "A");
  listed = refl;
  own = refl;
  fresh = refl;
  unmarked = refl;
}

abbrev an_joined : Player
an_joined = new_player 1 1 (codes "An")

abbrev licensed : Setting
licensed = record { down = no_faults; now = 0; config = none; seats = 5; enforcing = true }

has_joined : join_room licensed an solo shop ≡ (
  ok an_joined,
  (join_limited no_faults true (host_limit licensed shop) an solo).1,
  plans_after licensed an solo shop,
)
unfolding join_room joined_room find text_eq free_nickname transaction seat seat_limit
    get_entitlements ensure_free is_expired entitlements_from_plan count
has_joined = refl

join_room_capped_example :
    (r : Room) × (find (λ x. text_eq x.pin_code an.pin_code) solo.rooms ≡ some r)
    × (an_joined.room_id ≡ r.id)
    × (count
          (is_seated r.id)
          (join_limited no_faults true (host_limit licensed shop) an solo).1.players
        ≤ (get_entitlements no_faults 0 none 5 true r.host_id shop).0.max_players_per_room)
join_room_capped_example =
    join_room_capped licensed an solo shop an_joined
      (join_limited no_faults true (host_limit licensed shop) an solo).1
      (plans_after licensed an solo shop) refl has_joined

-- The same quiz, led by its host, at its first question.
abbrev led : GameStore
led =
    run (next_question no_faults (100 * second) 7 1)
      (start_game no_faults 7 1
        (join_limited no_faults true (λ _. 20) an (hall (codes "host_paced"))).1).1

abbrev state_of : Result Error (Answered × GameStore) → GameStore
state_of (ok (a, s)) = s
state_of (err e) = led

abbrev right_answer : Answered
right_answer = record {
  marked = record {
    timed_out = false;
    is_correct = true;
    points_earned = 875;
    response_time_ms = 5000;
  };
  score = 875;
  player_finished = false;
  ends_room = false;
}

abbrev after_answer : GameStore
after_answer = state_of (
    answer_classic no_faults (105 * second) true token 1 (question 1 (codes "A"))
      (answer 1 (codes "A")) led)

answers :
    answer_classic no_faults
      (105 * second)
      true
      token
      1
      (question 1 (codes "A"))
      (answer 1 (codes "A"))
      led
    ≡ ok (right_answer, after_answer)
unfolding answer_classic find run next_question start_game join_limited joined_room text_eq
    free_nickname transaction seat seat_limit count start_tx update_where question_at select
    truncate float_mul of_nat float_one float_add float_div
answers = refl

answer_classic-ClassicAnswer_example :
    ClassicAnswer
      (105 * second)
      true
      token
      1
      (question 1 (codes "A"))
      (answer 1 (codes "A"))
      led
      right_answer
      after_answer
answer_classic-ClassicAnswer_example =
    answer_classic-ClassicAnswer no_faults (105 * second) true token 1 (question 1 (codes "A"))
      (answer 1 (codes "A")) led right_answer after_answer answers
