-- ===== src/Store/Policy/Text.antt =====
-- The persisted words of the enumerations: `as_str` and `parse` of
-- crates/hub/src/store/conversation_policy.rs and crates/hub/src/store.rs, each inverse to the other.
use acp_hub.Base.{
  ◌≡◌, ◌↔◌, Option, none, some, String, if◌then◌else◌, ◌==◌, ==_iff, string_eq, arith,
}
use acp_hub.Store.Policy.{
  ConvOrigin, Interaction, ConvPhase, ConvBusy, LastOutcome, RunStatus, ConvStatus, SyntheticStatus,
  hub_created, bound, imported_list, writable, read_only, open_phase, closed_phase, deleted_phase,
  not_busy, busy_running, busy_cancelling, no_outcome, outcome_completed, outcome_failed,
  outcome_cancelled, running, cancelling, completed, cancelled, failed, idle, conv_running,
  conv_cancelling, conv_cancelled, conv_failed, conv_completed, closed, deleted, synthetic_running,
  synthetic_cancelling, synthetic_closed, synthetic_failed, synthetic_cancelled,
  synthetic_completed, synthetic_idle, synthetic_deleted,
}

unfoldable pub conv_origin_str : ConvOrigin → String
conv_origin_str hub_created = "hub_created"
conv_origin_str bound = "bound"
conv_origin_str imported_list = "imported_list"

unfoldable pub parse_conv_origin : String → Option ConvOrigin
parse_conv_origin s =
    if s == "hub_created"
    then some hub_created
    else if s == "bound"
    then some bound
    else if s == "imported_list"
    then some imported_list
    else none

unfoldable pub interaction_str : Interaction → String
interaction_str writable = "writable"
interaction_str read_only = "read_only"

unfoldable pub parse_interaction : String → Option Interaction
parse_interaction s =
    if s == "writable" then some writable else if s == "read_only" then some read_only else none

unfoldable pub conv_phase_str : ConvPhase → String
conv_phase_str open_phase = "open"
conv_phase_str closed_phase = "closed"
conv_phase_str deleted_phase = "deleted"

unfoldable pub parse_conv_phase : String → Option ConvPhase
parse_conv_phase s =
    if s == "open"
    then some open_phase
    else if s == "closed"
    then some closed_phase
    else if s == "deleted"
    then some deleted_phase
    else none

unfoldable pub conv_busy_str : ConvBusy → String
conv_busy_str not_busy = "none"
conv_busy_str busy_running = "running"
conv_busy_str busy_cancelling = "cancelling"

unfoldable pub parse_conv_busy : String → Option ConvBusy
parse_conv_busy s =
    if s == "none"
    then some not_busy
    else if s == "running"
    then some busy_running
    else if s == "cancelling"
    then some busy_cancelling
    else none

unfoldable pub last_outcome_str : LastOutcome → String
last_outcome_str no_outcome = "none"
last_outcome_str outcome_completed = "completed"
last_outcome_str outcome_failed = "failed"
last_outcome_str outcome_cancelled = "cancelled"

unfoldable pub parse_last_outcome : String → Option LastOutcome
parse_last_outcome s =
    if s == "none"
    then some no_outcome
    else if s == "completed"
    then some outcome_completed
    else if s == "failed"
    then some outcome_failed
    else if s == "cancelled"
    then some outcome_cancelled
    else none

unfoldable pub run_status_str : RunStatus → String
run_status_str running = "running"
run_status_str cancelling = "cancelling"
run_status_str completed = "completed"
run_status_str cancelled = "cancelled"
run_status_str failed = "failed"

unfoldable pub parse_run_status : String → Option RunStatus
parse_run_status s =
    if s == "running"
    then some running
    else if s == "cancelling"
    then some cancelling
    else if s == "completed"
    then some completed
    else if s == "cancelled"
    then some cancelled
    else if s == "failed"
    then some failed
    else none

unfoldable pub conv_status_str : ConvStatus → String
conv_status_str idle = "idle"
conv_status_str conv_running = "running"
conv_status_str conv_cancelling = "cancelling"
conv_status_str conv_cancelled = "cancelled"
conv_status_str conv_failed = "failed"
conv_status_str conv_completed = "completed"
conv_status_str closed = "closed"
conv_status_str deleted = "deleted"

unfoldable pub parse_conv_status : String → Option ConvStatus
parse_conv_status s =
    if s == "idle"
    then some idle
    else if s == "running"
    then some conv_running
    else if s == "cancelling"
    then some conv_cancelling
    else if s == "cancelled"
    then some conv_cancelled
    else if s == "failed"
    then some conv_failed
    else if s == "completed"
    then some conv_completed
    else if s == "closed"
    then some closed
    else if s == "deleted"
    then some deleted
    else none

unfoldable pub synthetic_status_str : SyntheticStatus → String
synthetic_status_str synthetic_running = "running"
synthetic_status_str synthetic_cancelling = "cancelling"
synthetic_status_str synthetic_closed = "closed"
synthetic_status_str synthetic_failed = "failed"
synthetic_status_str synthetic_cancelled = "cancelled"
synthetic_status_str synthetic_completed = "completed"
synthetic_status_str synthetic_idle = "idle"
synthetic_status_str synthetic_deleted = "deleted"

unfoldable pub parse_synthetic_status : String → Option SyntheticStatus
parse_synthetic_status s =
    if s == "running"
    then some synthetic_running
    else if s == "cancelling"
    then some synthetic_cancelling
    else if s == "closed"
    then some synthetic_closed
    else if s == "failed"
    then some synthetic_failed
    else if s == "cancelled"
    then some synthetic_cancelled
    else if s == "completed"
    then some synthetic_completed
    else if s == "idle"
    then some synthetic_idle
    else if s == "deleted"
    then some synthetic_deleted
    else none

parse_conv_origin_iff :
    (s : String) (v : ConvOrigin) → (parse_conv_origin s ≡ some v) ↔ (s ≡ conv_origin_str v)
unfolding parse_conv_origin conv_origin_str
parse_conv_origin_iff s hub_created = (
  λ h. ground (arith, ==_iff s "hub_created", ==_iff s "bound", ==_iff s "imported_list"),
  λ h. rw h,
)
parse_conv_origin_iff s bound = (
  λ h. ground (arith, ==_iff s "hub_created", ==_iff s "bound", ==_iff s "imported_list"),
  λ h. rw h,
)
parse_conv_origin_iff s imported_list = (
  λ h. ground (arith, ==_iff s "hub_created", ==_iff s "bound", ==_iff s "imported_list"),
  λ h. rw h,
)

parse_interaction_iff :
    (s : String) (v : Interaction) → (parse_interaction s ≡ some v) ↔ (s ≡ interaction_str v)
unfolding parse_interaction interaction_str
parse_interaction_iff s writable =
    (λ h. ground (arith, ==_iff s "writable", ==_iff s "read_only"), λ h. rw h)
parse_interaction_iff s read_only =
    (λ h. ground (arith, ==_iff s "writable", ==_iff s "read_only"), λ h. rw h)

parse_conv_phase_iff :
    (s : String) (v : ConvPhase) → (parse_conv_phase s ≡ some v) ↔ (s ≡ conv_phase_str v)
unfolding parse_conv_phase conv_phase_str
parse_conv_phase_iff s open_phase =
    (λ h. ground (arith, ==_iff s "open", ==_iff s "closed", ==_iff s "deleted"), λ h. rw h)
parse_conv_phase_iff s closed_phase =
    (λ h. ground (arith, ==_iff s "open", ==_iff s "closed", ==_iff s "deleted"), λ h. rw h)
parse_conv_phase_iff s deleted_phase =
    (λ h. ground (arith, ==_iff s "open", ==_iff s "closed", ==_iff s "deleted"), λ h. rw h)

parse_conv_busy_iff :
    (s : String) (v : ConvBusy) → (parse_conv_busy s ≡ some v) ↔ (s ≡ conv_busy_str v)
unfolding parse_conv_busy conv_busy_str
parse_conv_busy_iff s not_busy =
    (λ h. ground (arith, ==_iff s "none", ==_iff s "running", ==_iff s "cancelling"), λ h. rw h)
parse_conv_busy_iff s busy_running =
    (λ h. ground (arith, ==_iff s "none", ==_iff s "running", ==_iff s "cancelling"), λ h. rw h)
parse_conv_busy_iff s busy_cancelling =
    (λ h. ground (arith, ==_iff s "none", ==_iff s "running", ==_iff s "cancelling"), λ h. rw h)

parse_last_outcome_iff :
    (s : String) (v : LastOutcome) → (parse_last_outcome s ≡ some v) ↔ (s ≡ last_outcome_str v)
unfolding parse_last_outcome last_outcome_str
parse_last_outcome_iff s no_outcome = (
  λ h.
      ground
        (arith, ==_iff s "none", ==_iff s "completed", ==_iff s "failed", ==_iff s "cancelled"),
  λ h. rw h,
)
parse_last_outcome_iff s outcome_completed = (
  λ h.
      ground
        (arith, ==_iff s "none", ==_iff s "completed", ==_iff s "failed", ==_iff s "cancelled"),
  λ h. rw h,
)
parse_last_outcome_iff s outcome_failed = (
  λ h.
      ground
        (arith, ==_iff s "none", ==_iff s "completed", ==_iff s "failed", ==_iff s "cancelled"),
  λ h. rw h,
)
parse_last_outcome_iff s outcome_cancelled = (
  λ h.
      ground
        (arith, ==_iff s "none", ==_iff s "completed", ==_iff s "failed", ==_iff s "cancelled"),
  λ h. rw h,
)

parse_run_status_iff :
    (s : String) (v : RunStatus) → (parse_run_status s ≡ some v) ↔ (s ≡ run_status_str v)
unfolding parse_run_status run_status_str
parse_run_status_iff s running = (
  λ h. ground (
    arith,
    ==_iff s "running",
    ==_iff s "cancelling",
    ==_iff s "completed",
    ==_iff s "cancelled",
    ==_iff s "failed",
  ),
  λ h. rw h,
)
parse_run_status_iff s cancelling = (
  λ h. ground (
    arith,
    ==_iff s "running",
    ==_iff s "cancelling",
    ==_iff s "completed",
    ==_iff s "cancelled",
    ==_iff s "failed",
  ),
  λ h. rw h,
)
parse_run_status_iff s completed = (
  λ h. ground (
    arith,
    ==_iff s "running",
    ==_iff s "cancelling",
    ==_iff s "completed",
    ==_iff s "cancelled",
    ==_iff s "failed",
  ),
  λ h. rw h,
)
parse_run_status_iff s cancelled = (
  λ h. ground (
    arith,
    ==_iff s "running",
    ==_iff s "cancelling",
    ==_iff s "completed",
    ==_iff s "cancelled",
    ==_iff s "failed",
  ),
  λ h. rw h,
)
parse_run_status_iff s failed = (
  λ h. ground (
    arith,
    ==_iff s "running",
    ==_iff s "cancelling",
    ==_iff s "completed",
    ==_iff s "cancelled",
    ==_iff s "failed",
  ),
  λ h. rw h,
)

parse_conv_status_iff :
    (s : String) (v : ConvStatus) → (parse_conv_status s ≡ some v) ↔ (s ≡ conv_status_str v)
unfolding parse_conv_status conv_status_str
parse_conv_status_iff s idle = (
  λ h. ground (
    arith,
    ==_iff s "idle",
    ==_iff s "running",
    ==_iff s "cancelling",
    ==_iff s "cancelled",
    ==_iff s "failed",
    ==_iff s "completed",
    ==_iff s "closed",
    ==_iff s "deleted",
  ),
  λ h. rw h,
)
parse_conv_status_iff s conv_running = (
  λ h. ground (
    arith,
    ==_iff s "idle",
    ==_iff s "running",
    ==_iff s "cancelling",
    ==_iff s "cancelled",
    ==_iff s "failed",
    ==_iff s "completed",
    ==_iff s "closed",
    ==_iff s "deleted",
  ),
  λ h. rw h,
)
parse_conv_status_iff s conv_cancelling = (
  λ h. ground (
    arith,
    ==_iff s "idle",
    ==_iff s "running",
    ==_iff s "cancelling",
    ==_iff s "cancelled",
    ==_iff s "failed",
    ==_iff s "completed",
    ==_iff s "closed",
    ==_iff s "deleted",
  ),
  λ h. rw h,
)
parse_conv_status_iff s conv_cancelled = (
  λ h. ground (
    arith,
    ==_iff s "idle",
    ==_iff s "running",
    ==_iff s "cancelling",
    ==_iff s "cancelled",
    ==_iff s "failed",
    ==_iff s "completed",
    ==_iff s "closed",
    ==_iff s "deleted",
  ),
  λ h. rw h,
)
parse_conv_status_iff s conv_failed = (
  λ h. ground (
    arith,
    ==_iff s "idle",
    ==_iff s "running",
    ==_iff s "cancelling",
    ==_iff s "cancelled",
    ==_iff s "failed",
    ==_iff s "completed",
    ==_iff s "closed",
    ==_iff s "deleted",
  ),
  λ h. rw h,
)
parse_conv_status_iff s conv_completed = (
  λ h. ground (
    arith,
    ==_iff s "idle",
    ==_iff s "running",
    ==_iff s "cancelling",
    ==_iff s "cancelled",
    ==_iff s "failed",
    ==_iff s "completed",
    ==_iff s "closed",
    ==_iff s "deleted",
  ),
  λ h. rw h,
)
parse_conv_status_iff s closed = (
  λ h. ground (
    arith,
    ==_iff s "idle",
    ==_iff s "running",
    ==_iff s "cancelling",
    ==_iff s "cancelled",
    ==_iff s "failed",
    ==_iff s "completed",
    ==_iff s "closed",
    ==_iff s "deleted",
  ),
  λ h. rw h,
)
parse_conv_status_iff s deleted = (
  λ h. ground (
    arith,
    ==_iff s "idle",
    ==_iff s "running",
    ==_iff s "cancelling",
    ==_iff s "cancelled",
    ==_iff s "failed",
    ==_iff s "completed",
    ==_iff s "closed",
    ==_iff s "deleted",
  ),
  λ h. rw h,
)

parse_synthetic_status_iff :
    (s : String) (v : SyntheticStatus)
    → (parse_synthetic_status s ≡ some v) ↔ (s ≡ synthetic_status_str v)
unfolding parse_synthetic_status synthetic_status_str
parse_synthetic_status_iff s synthetic_running = (
  λ h. ground (
    arith,
    ==_iff s "running",
    ==_iff s "cancelling",
    ==_iff s "closed",
    ==_iff s "failed",
    ==_iff s "cancelled",
    ==_iff s "completed",
    ==_iff s "idle",
    ==_iff s "deleted",
  ),
  λ h. rw h,
)
parse_synthetic_status_iff s synthetic_cancelling = (
  λ h. ground (
    arith,
    ==_iff s "running",
    ==_iff s "cancelling",
    ==_iff s "closed",
    ==_iff s "failed",
    ==_iff s "cancelled",
    ==_iff s "completed",
    ==_iff s "idle",
    ==_iff s "deleted",
  ),
  λ h. rw h,
)
parse_synthetic_status_iff s synthetic_closed = (
  λ h. ground (
    arith,
    ==_iff s "running",
    ==_iff s "cancelling",
    ==_iff s "closed",
    ==_iff s "failed",
    ==_iff s "cancelled",
    ==_iff s "completed",
    ==_iff s "idle",
    ==_iff s "deleted",
  ),
  λ h. rw h,
)
parse_synthetic_status_iff s synthetic_failed = (
  λ h. ground (
    arith,
    ==_iff s "running",
    ==_iff s "cancelling",
    ==_iff s "closed",
    ==_iff s "failed",
    ==_iff s "cancelled",
    ==_iff s "completed",
    ==_iff s "idle",
    ==_iff s "deleted",
  ),
  λ h. rw h,
)
parse_synthetic_status_iff s synthetic_cancelled = (
  λ h. ground (
    arith,
    ==_iff s "running",
    ==_iff s "cancelling",
    ==_iff s "closed",
    ==_iff s "failed",
    ==_iff s "cancelled",
    ==_iff s "completed",
    ==_iff s "idle",
    ==_iff s "deleted",
  ),
  λ h. rw h,
)
parse_synthetic_status_iff s synthetic_completed = (
  λ h. ground (
    arith,
    ==_iff s "running",
    ==_iff s "cancelling",
    ==_iff s "closed",
    ==_iff s "failed",
    ==_iff s "cancelled",
    ==_iff s "completed",
    ==_iff s "idle",
    ==_iff s "deleted",
  ),
  λ h. rw h,
)
parse_synthetic_status_iff s synthetic_idle = (
  λ h. ground (
    arith,
    ==_iff s "running",
    ==_iff s "cancelling",
    ==_iff s "closed",
    ==_iff s "failed",
    ==_iff s "cancelled",
    ==_iff s "completed",
    ==_iff s "idle",
    ==_iff s "deleted",
  ),
  λ h. rw h,
)
parse_synthetic_status_iff s synthetic_deleted = (
  λ h. ground (
    arith,
    ==_iff s "running",
    ==_iff s "cancelling",
    ==_iff s "closed",
    ==_iff s "failed",
    ==_iff s "cancelled",
    ==_iff s "completed",
    ==_iff s "idle",
    ==_iff s "deleted",
  ),
  λ h. rw h,
)

-- A text is read as a value of one of these enumerations exactly if it is the text that is written for
-- that value: every persisted word is read back, and no other text is read.
pub parse_iff :
    (s : String)
    → ((v : ConvOrigin) → (parse_conv_origin s ≡ some v) ↔ (s ≡ conv_origin_str v))
      × ((v : Interaction) → (parse_interaction s ≡ some v) ↔ (s ≡ interaction_str v))
      × ((v : ConvPhase) → (parse_conv_phase s ≡ some v) ↔ (s ≡ conv_phase_str v))
      × ((v : ConvBusy) → (parse_conv_busy s ≡ some v) ↔ (s ≡ conv_busy_str v))
      × ((v : LastOutcome) → (parse_last_outcome s ≡ some v) ↔ (s ≡ last_outcome_str v))
      × ((v : RunStatus) → (parse_run_status s ≡ some v) ↔ (s ≡ run_status_str v))
      × ((v : ConvStatus) → (parse_conv_status s ≡ some v) ↔ (s ≡ conv_status_str v))
      × ((v : SyntheticStatus) → (parse_synthetic_status s ≡ some v) ↔ (s ≡ synthetic_status_str v))
parse_iff s = (
  parse_conv_origin_iff s,
  parse_interaction_iff s,
  parse_conv_phase_iff s,
  parse_conv_busy_iff s,
  parse_last_outcome_iff s,
  parse_run_status_iff s,
  parse_conv_status_iff s,
  parse_synthetic_status_iff s,
)
