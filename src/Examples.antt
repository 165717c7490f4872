-- ===== src/Examples.antt =====
-- Concrete inputs for the theorems of the other modules.
pub mod Tasks
pub mod Groups
pub mod Parts
pub mod Machines
pub mod Restores
pub mod Prunes
pub mod Replicas
pub mod Stores
pub mod Snapshots
use herterarchy_broker.Common.{List, ℕ, [], ◌∷◌}
use herterarchy_broker.Identifiers.{Identifier}

abbrev pub named : ℕ → Identifier
named byte = record { bytes = byte ∷ [] }

abbrev pub the_task : Identifier
the_task = named b't'

abbrev pub the_namespace : Identifier
the_namespace = named b'n'

abbrev pub the_group : Identifier
the_group = named b'g'

abbrev pub the_member : Identifier
the_member = named b'm'

abbrev pub the_lease : Identifier
the_lease = named b'l'
