-- ===== src/Store/Policy.antt =====
-- The pure conversation policy, crates/hub/src/store/conversation_policy.rs, and the persisted statuses of
-- crates/hub/src/store.rs. Where constructors of two types share a name in the source, the name here
-- carries its type.
pub mod Text
use acp_hub.Base.{
  ◌≡◌, Bool, true, false, not, Option, none, some, String, if◌then◌else◌, ◌==◌, string_eq,
}

pub data ConvOrigin : Type 0 where
  hub_created bound imported_list : ConvOrigin

pub data Interaction : Type 0 where
  writable read_only : Interaction

pub data ConvPhase : Type 0 where
  open_phase closed_phase deleted_phase : ConvPhase

pub data ConvBusy : Type 0 where
  not_busy busy_running busy_cancelling : ConvBusy

pub data LastOutcome : Type 0 where
  no_outcome outcome_completed outcome_failed outcome_cancelled : LastOutcome

pub data RunStatus : Type 0 where
  running cancelling completed cancelled failed : RunStatus

pub data ConvStatus : Type 0 where
  idle conv_running conv_cancelling conv_cancelled conv_failed conv_completed closed deleted :
      ConvStatus

pub data SyntheticStatus : Type 0 where
  synthetic_running synthetic_cancelling synthetic_closed synthetic_failed synthetic_cancelled
        synthetic_completed synthetic_idle synthetic_deleted :
      SyntheticStatus

unfoldable pub is_busy : ConvBusy → Bool
is_busy not_busy = false
is_busy busy_running = true
is_busy busy_cancelling = true

-- `RunStatus::is_terminal`.
unfoldable pub is_terminal : RunStatus → Bool
is_terminal running = false
is_terminal cancelling = false
is_terminal completed = true
is_terminal cancelled = true
is_terminal failed = true

-- What `synthetic_status` returns for a conversation that is neither deleted, busy nor closed.
abbrev outcome_status : LastOutcome → SyntheticStatus
outcome_status outcome_failed = synthetic_failed
outcome_status outcome_cancelled = synthetic_cancelled
outcome_status outcome_completed = synthetic_completed
outcome_status no_outcome = synthetic_idle

unfoldable pub synthetic_status : ConvPhase → ConvBusy → LastOutcome → SyntheticStatus
synthetic_status deleted_phase busy last_outcome = synthetic_deleted
synthetic_status phase busy_running last_outcome = synthetic_running
synthetic_status phase busy_cancelling last_outcome = synthetic_cancelling
synthetic_status closed_phase not_busy last_outcome = synthetic_closed
synthetic_status open_phase not_busy last_outcome = outcome_status last_outcome

-- `ConvStatus::from_synthetic`.
unfoldable pub from_synthetic : SyntheticStatus → ConvStatus
from_synthetic synthetic_idle = idle
from_synthetic synthetic_running = conv_running
from_synthetic synthetic_cancelling = conv_cancelling
from_synthetic synthetic_cancelled = conv_cancelled
from_synthetic synthetic_failed = conv_failed
from_synthetic synthetic_completed = conv_completed
from_synthetic synthetic_closed = closed
from_synthetic synthetic_deleted = deleted

unfoldable pub mirror_status : ConvPhase → ConvBusy → LastOutcome → ConvStatus
unfolding from_synthetic synthetic_status
mirror_status phase busy last_outcome = from_synthetic (synthetic_status phase busy last_outcome)
