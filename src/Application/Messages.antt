-- ===== src/Application/Messages.antt =====
-- The texts that the application and the consensus crate build with `format!` and `Display`. A text
-- is kept as what it is built from: the format string with its arguments, or the error it shows.
use Prim.Native.String.{String}
use herterarchy_broker.Common.{ℕ, List}
use herterarchy_broker.Fencing.{FencingValueError}
use herterarchy_broker.Identifiers.{IdentifierError}
use herterarchy_broker.Task.Text.{TaskTextError}
use herterarchy_broker.Group.CapabilitySet.{CapabilitiesError}
use herterarchy_broker.Group.Checkpoint.{CheckpointError}
use herterarchy_broker.Application.Identity.{CommandIdentityError}
use herterarchy_broker.Machine.State.{StateMachineError}

-- an argument of `format!`
pub data Argument : Type 0 where
  string : List ℕ → Argument
  number : ℕ → Argument

pub data Message : Type 0 where
  literal : String → Message
  format : String → List Argument → Message
  shows_identifier : IdentifierError → Message
  shows_text : TaskTextError → Message
  shows_capabilities : CapabilitiesError → Message
  shows_fencing : FencingValueError → Message
  shows_machine : StateMachineError → Message
  shows_identity : CommandIdentityError → Message
  shows_checkpoint : CheckpointError → Message
  prefixed : String → Message → Message
