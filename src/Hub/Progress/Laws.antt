-- ===== src/Hub/Progress/Laws.antt =====
-- The durations of the stages are parts of the total.
use acp_hub.Base.{
  ℕ, ◌+◌, ◌*◌, ◌^◌, ◌≤◌, ◌<◌, ◌≡◌, refl, List, [], ◌∷◌, Option, none, some, arith, Option-cases,
  inl, inr, ◌∙◌,
}
use acp_hub.Hub.Progress.{
  ProgressStage, daemon_connect, agent_spawn, initialize, session_op, prompt, end_stage, Timings,
  ProgressTracker, new_tracker, millis, elapsed_ms, timed, close_current, enter_stage, finish,
  Entered, run,
}

abbrev pub or_zero : Option ℕ → ℕ
or_zero none = 0
or_zero (some ms) = ms

-- What the stages took together.
abbrev pub stages_ms : Timings → ℕ
stages_ms t =
    or_zero t.daemon_ms
    + (or_zero t.agent_spawn_ms
        + (or_zero t.initialize_ms + (or_zero t.session_ms + or_zero t.prompt_ms)))

-- The readings of the clock never go back, from `now` on.
abbrev pub Onward : ℕ → List Entered → Type 0
Onward now [] = Unit
Onward now (e ∷ stages) =
    (now ≤ e.closing)
    × (e.closing ≤ e.marking)
    × (e.marking ≤ e.reporting)
    × Onward e.reporting stages

-- The last reading.
abbrev pub latest : ℕ → List Entered → ℕ
latest now [] = now
latest now (e ∷ stages) = latest e.reporting stages

millis_le : (from now : ℕ) → from ≤ now → millis from now * 1000000 + from ≤ now
unfolding millis
millis_le from now h = omega arith

stages_ms-timed :
    (s : ProgressStage) (ms : ℕ) (t : Timings) → stages_ms (timed s ms t) ≤ stages_ms t + ms
unfolding timed
stages_ms-timed daemon_connect ms t = omega arith
stages_ms-timed agent_spawn ms t = omega arith
stages_ms-timed initialize ms t = omega arith
stages_ms-timed session_op ms t = omega arith
stages_ms-timed prompt ms t = omega arith
stages_ms-timed end_stage ms t = omega arith

-- The durations so far fit between the start and the last mark, and the mark is not ahead of the clock.
abbrev Fits : ℕ → ProgressTracker → Type 0
Fits now s = (stages_ms s.timings * 1000000 + s.started ≤ s.last_mark) × (s.last_mark ≤ now)

close_current-Fits :
    (now : ℕ) (s : ProgressTracker)
    → Fits now s
    → stages_ms (close_current now s).timings * 1000000 + s.started ≤ now
unfolding close_current
close_current-Fits now s f = elim (Option-cases s.current) [
  | inl absent ↦ rw absent (omega (arith, f.0, f.1))
  | inr (entered, there) ↦
      let a = stages_ms-timed entered (millis s.last_mark now) s.timings in
      let b = millis_le s.last_mark now f.1 in rw there (omega (arith, f.0, a, b))
]

close_current-started : (now : ℕ) (s : ProgressTracker) → (close_current now s).started ≡ s.started
unfolding close_current
close_current-started now s = ground arith

run-Fits :
    (now : ℕ) (s : ProgressTracker) (stages : List Entered)
    → Fits now s
    → Onward now stages
    → Fits (latest now stages) (run s stages) × ((run s stages).started ≡ s.started)
unfolding run enter_stage
run-Fits now s [] f o = (f, refl)
run-Fits now s (e ∷ stages) f o =
    let a = close_current-Fits e.closing s (f.0, omega (arith, f.1, o.0)) in
    let b = close_current-started e.closing s in
    let (g, h) =
      run-Fits e.reporting (enter_stage e.entered e.closing e.marking e.reporting s).0 stages
        (omega (arith, a, b, o.1), o.2) o.3 in
    (g, h ∙ b)

start-Fits : (now : ℕ) → Fits now (new_tracker now)
unfolding new_tracker
start-Fits now = (omega arith, omega arith)

start_started : (now : ℕ) → (new_tracker now).started ≡ now
unfolding new_tracker
start_started now = refl

total_lem :
    (n started closing ending : ℕ)
    → n * 1000000 + started ≤ closing
    → closing ≤ ending
    → ending < started + 2 ^ 64 * 1000000
    → n ≤ millis started ending
unfolding millis
total_lem n started closing ending a b c = omega arith

-- Over any stages, entered while the clock never goes back, the durations that are recorded are together at
-- most the total that is reported at the end, if the whole takes less than 2 ^ 64 milliseconds.
pub stages_within_total :
    (now : ℕ) (stages : List Entered) (closing reporting ending : ℕ)
    → Onward now stages
    → latest now stages ≤ closing
    → closing ≤ ending
    → ending < now + 2 ^ 64 * 1000000
    → let timings = (finish closing reporting ending (run (new_tracker now) stages)).2 in
      stages_ms timings ≤ timings.total_ms
unfolding finish elapsed_ms
stages_within_total now stages closing reporting ending o later last short =
    let (fits, same) = run-Fits now (new_tracker now) stages (start-Fits now) o in
    let s = run (new_tracker now) stages in
    let a = close_current-Fits closing s (fits.0, omega (arith, fits.1, later)) in
    let b = close_current-started closing s in
    let began = start_started now in
    total_lem (stages_ms (close_current closing s).timings) (close_current closing s).started
      closing ending (omega (arith, a, b)) last (omega (arith, b, same, began, short))
