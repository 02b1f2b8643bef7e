-- ===== src/Game/Scoring.antt =====
-- internal/handler/quiz.go: whether an answer is right (evaluateAnswer), and what it earns in either
-- mode of a game (the two branches of SubmitAnswer).
pub mod Bounds
use koviobe.Base.{
  ℕ, ◌+◌, ◌-◌, ◌*◌, ◌/◌, ◌%◌, ◌^◌, Text, Bool, true, false, ◌&&◌, not, Option, none, some, codes,
  map, ◌==◌, ltb, leb, if◌then◌else◌, is_empty, text_eq, trim_space, word, second,
}
use koviobe.Base.Floats.{
  Float, float_one, of_nat, float_add, float_sub, float_mul, float_div, truncate,
}
use koviobe.Model.Game.{Question}

-- What evaluateAnswer leaves to others: the case folding of Unicode's tables, which
-- strings.EqualFold reads, and the distance of two pins, "x,y" in percent, within 8.
pub record Judge : Type 0 where
  pub fold : ℕ → ℕ
  pub pins_meet : Text → Text → Bool

abbrev pub equal_fold : Judge → Text → Text → Bool
equal_fold j s t = text_eq (map j.fold s) (map j.fold t)

unfoldable pub evaluate_answer : Judge → Question → Text → Bool
evaluate_answer j q selected =
    let given = trim_space selected in
    let correct = trim_space q.correct_answer in
    if is_empty given
    then false
    else if text_eq q.kind (codes "poll")
    then false
    else if text_eq q.kind (codes "pin_answer")
    then j.pins_meet correct given
    else equal_fold j correct given

abbrev pub grace : ℕ
grace = 2 * second

-- receivedAt.After(until.Add(2s)).
abbrev pub is_late : ℕ → ℕ → Bool
is_late until now = ltb (until + grace) now

-- Whole milliseconds from the start of a question, which is its deadline less its duration, until
-- `now`. A start after `now` gives a negative number.
unfoldable pub response_ms : ℕ → ℕ → Question → ℕ
response_ms now until q =
    let elapsed = now + q.duration * second in
    if leb until elapsed
    then (elapsed - until) / 10 ^ 6
    else (word - (until - elapsed) / 10 ^ 6) % word

abbrev pub half : Float
half = float_div (of_nat 1) (of_nat 2)

abbrev pub at_most_one : Float → Float
at_most_one r = if ltb float_one r then float_one else r

-- int(float64(question.Points) * (0.5 + 0.5*ratio)).
unfoldable pub speed_points : ℕ → Float → ℕ
speed_points points ratio =
    truncate (float_mul (of_nat points) (float_add half (float_mul half ratio)))

-- The part of the time that was left to a player of a solo game.
unfoldable pub solo_ratio : ℕ → Question → Float
solo_ratio ms q =
    let total = if q.duration * 1000 == 0 then 30000 else q.duration * 1000 in
    at_most_one (float_sub float_one (float_div (of_nat ms) (of_nat total)))

-- The part of the time that was left to a player of a game that its host leads. A duration of 0
-- divides by 0, which no stored question does.
unfoldable pub classic_ratio : ℕ → ℕ → Question → Float
classic_ratio now until q =
    at_most_one (float_div (of_nat (until - now)) (of_nat (q.duration * second)))

-- What SubmitAnswer works out of a solo answer before it writes anything.
pub record Marked : Type 0 where
  pub timed_out : Bool
  pub is_correct : Bool
  pub points_earned : ℕ
  pub response_time_ms : ℕ

abbrev pub earned_points : Bool → ℕ → Float → ℕ
earned_points true points ratio = speed_points points ratio
earned_points false points ratio = 0

-- `start` is the player's deadline, none where the question was never fetched.
unfoldable pub mark_solo : ℕ → Option ℕ → Question → Bool → Marked
unfolding response_ms solo_ratio speed_points
mark_solo now none q correct = record {
  timed_out = false;
  is_correct = correct;
  points_earned = earned_points correct q.points 0;
  response_time_ms = if q.duration * 1000 == 0 then 30000 else q.duration * 1000;
}
mark_solo now (some until) q correct =
    let right = correct && not (is_late until now) in
    let ms = if leb until (now + q.duration * second) then response_ms now until q else 0 in
    record {
      timed_out = is_late until now;
      is_correct = right;
      points_earned = earned_points right q.points (solo_ratio ms q);
      response_time_ms = ms;
    }

unfoldable pub mark_classic : ℕ → ℕ → Question → Bool → Marked
unfolding response_ms classic_ratio speed_points
mark_classic now until q correct = record {
  timed_out = false;
  is_correct = correct;
  points_earned = earned_points correct q.points (classic_ratio now until q);
  response_time_ms = response_ms now until q;
}
