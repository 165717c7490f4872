-- ===== src/Examples/Parts.antt =====
-- Concrete inputs for the theorems on identifiers, texts, policies and quorums.
use herterarchy_broker.Common.{ℕ, ◌+◌, ◌-◌, ◌≤◌, ◌<◌, ◌≡◌, refl, ◌↔◌, [], ◌∷◌, ok, all, true, false}
use herterarchy_broker.Identifiers.{new}
use herterarchy_broker.Identifiers.Validation.{IsWellFormed, new-ok_iff}
use herterarchy_broker.Task.{TaskObjective, TaskResult}
use herterarchy_broker.Task.Text.{new_objective, new_result, byte_len, is_whitespace, text_limits}
use herterarchy_broker.Policy.{BrokerCapacityPolicy}
use herterarchy_broker.Quorum
use herterarchy_broker.Quorum.{
  QuorumPolicy, majority, tolerated_failures, has_high_availability, majority-overlap,
}
use herterarchy_broker.Examples.{the_task}

new-ok_iff_example :
    (new "Task" (b't' ∷ []) ≡ ok the_task)
    ↔ (IsWellFormed (b't' ∷ []) × (the_task ≡ record { bytes = b't' ∷ [] }))
new-ok_iff_example = new-ok_iff "Task" (b't' ∷ []) the_task

abbrev an_objective : TaskObjective
an_objective = record { text = b'o' ∷ [] }

abbrev a_result : TaskResult
a_result = record { text = b'o' ∷ [] }

text_limits_example :
    ((new_objective (b'o' ∷ []) ≡ ok an_objective) ↔ (
      (all is_whitespace (b'o' ∷ []) ≡ false)
      × (byte_len (b'o' ∷ []) ≤ 16_384)
      × (an_objective.text ≡ b'o' ∷ [])))
    × ((new_result (b'o' ∷ []) ≡ ok a_result) ↔ (
        (all is_whitespace (b'o' ∷ []) ≡ false)
        × (byte_len (b'o' ∷ []) ≤ 65_536)
        × (a_result.text ≡ b'o' ∷ [])))
text_limits_example = text_limits (b'o' ∷ []) an_objective a_result

abbrev duration : ℕ
duration = 2_000

abbrev small : BrokerCapacityPolicy
small = record {
  namespaces = 1;
  tasks_per_namespace = 2;
  groups_per_namespace = 3;
  members_per_group = 4;
}

abbrev three : QuorumPolicy
three = record { node_count = 3 }

three_nodes : Quorum.new 3 ≡ ok three
unfolding Quorum.new
three_nodes = refl

majority-overlap_example :
    (3 < majority three + majority three)
    × (majority three ≤ 3 - tolerated_failures three)
    × (3 - (tolerated_failures three + 1) < majority three)
    × ((has_high_availability three ≡ true) ↔ (3 ≤ 3))
majority-overlap_example = majority-overlap 3 three three_nodes
