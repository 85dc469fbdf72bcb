-- ===== src/Hub/Progress.antt =====
-- Stage accounting: crates/hub/src/progress.rs. An instant is a number of nanoseconds; every reading of
-- the clock is an argument. The constant field `type_name` of an event is left out.
pub mod Laws
use acp_hub.Base.{ℕ, ◌+◌, ◌-◌, ◌/◌, ◌%◌, ◌^◌, List, [], ◌∷◌, ◌++◌, Option, none, some, String}

pub data ProgressStage : Type 0 where
  daemon_connect agent_spawn initialize session_op prompt end_stage : ProgressStage

-- `ProgressStage::as_str`.
unfoldable pub stage_str : ProgressStage → String
stage_str daemon_connect = "daemon_connect"
stage_str agent_spawn = "agent_spawn"
stage_str initialize = "initialize"
stage_str session_op = "session_op"
stage_str prompt = "prompt"
stage_str end_stage = "end"

pub record ProgressEvent : Type 0 where
  pub stage : String
  pub at_ms : ℕ

pub record Timings : Type 0 where
  pub daemon_ms : Option ℕ
  pub agent_spawn_ms : Option ℕ
  pub initialize_ms : Option ℕ
  pub session_ms : Option ℕ
  pub prompt_ms : Option ℕ
  pub total_ms : ℕ

pub record ProgressTracker : Type 0 where
  pub started : ℕ
  pub last_mark : ℕ
  pub current : Option ProgressStage
  pub timings : Timings
  pub events : List ProgressEvent

-- `ProgressTracker::new`.
unfoldable pub new_tracker : ℕ → ProgressTracker
new_tracker now = record {
  started = now;
  last_mark = now;
  current = none;
  timings = record {
    daemon_ms = none;
    agent_spawn_ms = none;
    initialize_ms = none;
    session_ms = none;
    prompt_ms = none;
    total_ms = 0;
  };
  events = [];
}

-- `elapsed().as_millis() as u64`, from an instant to the present one.
unfoldable pub millis : ℕ → ℕ → ℕ
millis from now = (now - from) / 1000000 % 2 ^ 64

unfoldable pub elapsed_ms : ℕ → ProgressTracker → ℕ
unfolding millis
elapsed_ms now s = millis s.started now

-- What `close_current` writes for a stage; `End` has no key.
unfoldable pub timed : ProgressStage → ℕ → Timings → Timings
timed daemon_connect ms t = record t { daemon_ms = some ms }
timed agent_spawn ms t = record t { agent_spawn_ms = some ms }
timed initialize ms t = record t { initialize_ms = some ms }
timed session_op ms t = record t { session_ms = some ms }
timed prompt ms t = record t { prompt_ms = some ms }
timed end_stage ms t = t

-- `close_current`.
unfoldable pub close_current : ℕ → ProgressTracker → ProgressTracker
unfolding timed millis
close_current now s = elim s.current [
  | none ↦ s
  | some entered ↦ record s {
    current = none;
    timings = timed entered (millis s.last_mark now) s.timings;
  }
]

-- `ProgressTracker::stage`, with its three readings of the clock.
unfoldable pub enter_stage :
    ProgressStage → ℕ → ℕ → ℕ → ProgressTracker → ProgressTracker × ProgressEvent
unfolding close_current elapsed_ms stage_str
enter_stage entered closing marking reporting s =
    let c = close_current closing s in
    let marked : ProgressTracker = record c { current = some entered; last_mark = marking } in
    let event : ProgressEvent = record {
      stage = stage_str entered;
      at_ms = elapsed_ms reporting marked;
    } in
    (record marked { events = c.events ++ (event ∷ []) }, event)

-- `ProgressTracker::finish`, with its three readings of the clock.
unfoldable pub finish : ℕ → ℕ → ℕ → ProgressTracker → ProgressTracker × ProgressEvent × Timings
unfolding close_current elapsed_ms stage_str
finish closing reporting ending s =
    let c = close_current closing s in
    let event : ProgressEvent = record {
      stage = stage_str end_stage;
      at_ms = elapsed_ms reporting c;
    } in
    let timings : Timings = record c.timings { total_ms = elapsed_ms ending c } in
    (
      record c { current = none; timings = timings; events = c.events ++ (event ∷ []) },
      event,
      timings,
    )

-- A stage that is entered, with the readings of the clock.
pub record Entered : Type 0 where
  pub entered : ProgressStage
  pub closing : ℕ
  pub marking : ℕ
  pub reporting : ℕ

unfoldable pub run : ProgressTracker → List Entered → ProgressTracker
unfolding enter_stage
run s [] = s
run s (e ∷ stages) = run (enter_stage e.entered e.closing e.marking e.reporting s).0 stages
