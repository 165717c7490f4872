-- ===== src/Machine/Protocol/Housing.antt =====
-- Every task stands in a namespace that is registered.
use herterarchy_broker.Common.{Bool, ◌≡◌, ◌∙◌, sym, inl, inr, true, some, List, ok, arith, is_some}
use herterarchy_broker.Common.Maps.{Map, get, insert, remove, get-insert, get-remove}
use herterarchy_broker.Identifiers.{NamespaceId, TaskId}
use herterarchy_broker.Identifiers.Order.{id_key, id_eq_iff}
use herterarchy_broker.Task
use herterarchy_broker.Task.{Task, CompletionOutcome, new_task}
use herterarchy_broker.Task.Laws.{claim-ok, renew-ok, complete-cases, requeue-ok}
use herterarchy_broker.Machine.State.{BrokerStateMachine, Namespace, default_machine}
use herterarchy_broker.Machine.Commands.{BrokerCommand}
use herterarchy_broker.Machine.{run}
use herterarchy_broker.Machine.Protocol.{
  Move, Moves, Grows, keep, publish, claim, renew, complete, requeue, prune, here,
}
use herterarchy_broker.Machine.Protocol
use herterarchy_broker.Machine.Protocol.Commands.{run-Moves}

abbrev Within : Map TaskId Task → Map NamespaceId Namespace → Type 0
Within tasks namespaces =
    (id : TaskId) (t : Task)
    → get id tasks ≡ some t
    → is_some (get t.namespace_id namespaces) ≡ true

abbrev IsHoused : BrokerStateMachine → Type 0
IsHoused m = Within m.tasks m.namespaces

Within-subst :
    {tasks tasks' : Map TaskId Task} {namespaces namespaces' : Map NamespaceId Namespace}
    → tasks' ≡ tasks
    → namespaces' ≡ namespaces
    → Within tasks namespaces
    → Within tasks' namespaces'
Within-subst et en r = rw (et, en) r

-- A task in a registered namespace is put in.
Within-insert :
    (tasks : Map TaskId Task) (namespaces : Map NamespaceId Namespace) (id : TaskId) (t' : Task)
    → is_some (get t'.namespace_id namespaces) ≡ true
    → Within tasks namespaces
    → Within (insert id t' tasks) namespaces
Within-insert tasks namespaces id t' known r j u e =
    ground (arith, get-insert id j t' tasks, id_eq_iff id j, r j u)

Within-replace :
    (tasks : Map TaskId Task) (namespaces : Map NamespaceId Namespace) (id : TaskId) (t t' : Task)
    → get id tasks ≡ some t
    → t'.namespace_id ≡ t.namespace_id
    → Within tasks namespaces
    → Within (insert id t' tasks) namespaces
Within-replace tasks namespaces id t t' e same r =
    Within-insert tasks namespaces id t' (ground (arith, r id t e)) r

Within-remove :
    (tasks : Map TaskId Task) (namespaces : Map NamespaceId Namespace) (id : TaskId)
    → Within tasks namespaces
    → Within (remove id tasks) namespaces
Within-remove tasks namespaces id r j u e =
    ground (arith, get-remove id j tasks, id_eq_iff id j, r j u)

complete-namespace :
    (fence : Task.LeaseFence) (result : Task.TaskResult) (t t' : Task)
    → Task.complete fence result t ≡ ok (CompletionOutcome.completed, t')
    → t'.namespace_id ≡ t.namespace_id
complete-namespace fence result t t' h =
    elim (complete-cases fence result t (CompletionOutcome.completed, t') h) [
      | inl (c, s, q) ↦ ground arith
      | inr (l, s, k, _, q) ↦ ground arith
    ]

Move-IsHoused :
    {m m' : BrokerStateMachine} {pruning : Bool} → Move pruning m m' → IsHoused m → IsHoused m'
unfolding new_task
Move-IsHoused {m} (keep et _ grows) r = λ j u e. grows u.namespace_id (r j u (sym (et j) ∙ e))
Move-IsHoused {m} (publish id ns o at fresh known et _ en) r =
    Within-subst et en (Within-insert m.tasks m.namespaces id (new_task id ns o at) known r)
Move-IsHoused {m} (claim id grant t t' e _ h et _ en) r =
    let (q, s, _, _, q') = claim-ok grant t t' h in
    Within-subst et en (Within-replace m.tasks m.namespaces id t t' e (ground arith) r)
Move-IsHoused {m} (renew id fence x t t' e h et _ en) r =
    let (l, s, _, _, q) = renew-ok fence x t t' h in
    Within-subst et en (Within-replace m.tasks m.namespaces id t t' e (ground arith) r)
Move-IsHoused {m} (complete id fence result t t' e h et _ en) r =
    Within-subst et en
      (Within-replace m.tasks m.namespaces id t t' e (complete-namespace fence result t t' h) r)
Move-IsHoused {m} (requeue id lease t t' e s h et _ en) r =
    let (_, _, q) = requeue-ok lease t (true, t') h in
    Within-subst et en (Within-replace m.tasks m.namespaces id t t' e (ground arith) r)
Move-IsHoused {m} (prune p id t c e s et _ en) r =
    Within-subst et en (Within-remove m.tasks m.namespaces id r)

Moves-IsHoused :
    {pruning : Bool} {m m' : BrokerStateMachine} → Moves pruning m m' → IsHoused m → IsHoused m'
Moves-IsHoused here r = r
Moves-IsHoused (Protocol.next p s) r = Move-IsHoused s (Moves-IsHoused p r)

default-IsHoused : IsHoused default_machine
unfolding get
default-IsHoused id t e = cc

-- Whatever commands were applied since the start, failed ones included, the namespace of every
-- task is registered.
pub run-IsHoused :
    (cs : List BrokerCommand) (id : TaskId) (t : Task)
    → get id (run cs default_machine).tasks ≡ some t
    → is_some (get t.namespace_id (run cs default_machine).namespaces) ≡ true
run-IsHoused cs = Moves-IsHoused (run-Moves cs default_machine) default-IsHoused
