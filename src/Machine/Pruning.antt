-- ===== src/Machine/Pruning.antt =====
-- What `prune_completed_tasks` of crates/agent-broker-domain/src/state_machine.rs removes.
pub mod Fates
use herterarchy_broker.Common.{
  ℕ, zero, suc, ◌+◌, ◌≤◌, ◌<◌, ◌≡◌, refl, sym, ◌∙◌, subst, ◌⊎◌, inl, inr, Bool, true, false, Option,
  none, some, List, [], ◌∷◌, Result, ok, err, arith, length, ltb, nat_eq, if◌then◌else◌, Bool-cases,
  Option-cases, Result-cases,
}
use herterarchy_broker.Common
use herterarchy_broker.Common.Keys.{◌==◌}
use herterarchy_broker.Common.Maps.{Map, get, remove, get-remove, length-remove_lt}
use herterarchy_broker.Identifiers.{TaskId, NamespaceId}
use herterarchy_broker.Identifiers.Order.{id_key, id_eq_iff}
use herterarchy_broker.Task.{Task, TaskState, CompletedTask}
use herterarchy_broker.Task.Laws.{TaskState-cases}
use herterarchy_broker.Machine.State.{
  BrokerStateMachine, StateMachineError, CompletedTaskHeap, set_revision,
}
use herterarchy_broker.Machine.Commands.{PruneCompletedTasksCommand}
use herterarchy_broker.Machine.Results.{CompletedTasksPrunedResult}
use herterarchy_broker.Machine.Monad.{Action, pure, ◌>>=◌}
use herterarchy_broker.Machine.Leases.{next_global_revision}
use herterarchy_broker.Machine.Retention.{
  completed_namespace, select_completed, prune_task, prune_loop, prune_selected,
  prune_completed_tasks,
}
use herterarchy_broker.Machine.Clock.{Ends, bind-Ends}
use herterarchy_broker.Machine.Pruning.Fates.{
  Fate, Pruned, same_tasks, Pruned-trans, prune_task_shrinks, prune_task-Pruned,
}

-- What a loop has done that may remove up to `left` tasks.
pub record Removes (cutoff left : ℕ) (m : BrokerStateMachine) (count : ℕ) (n : BrokerStateMachine)
    : Type 0 where
  pub at_most : count ≤ left
  pub gone : length n.tasks + count ≤ length m.tasks
  pub fates : (id : TaskId) → Fate cutoff (get id m.tasks) (get id n.tasks)

stopped-Removes :
    (cutoff left : ℕ) (m : BrokerStateMachine)
    → Ends (Removes cutoff left m) (Pruned cutoff m) (ok 0, m)
stopped-Removes cutoff left m = record {
  success = λ x e. record { at_most = ground arith; gone = ground arith; fates = λ _. inl refl };
  failure = λ x e. same_tasks cutoff m;
}

-- One more task went before.
counted-Removes :
    (cutoff left : ℕ) (m n : BrokerStateMachine)
    (out : Result StateMachineError ℕ × BrokerStateMachine)
    → Pruned cutoff m n
    → length n.tasks < length m.tasks
    → Ends (Removes cutoff left n) (Pruned cutoff n) out
    → Ends
        (Removes cutoff (suc left) m)
        (Pruned cutoff m)
        (Common.◌>>=◌ out.0 (λ k. ok (suc k)), out.1)
counted-Removes cutoff left m n out first fewer h = record {
  success = λ j e. elim (Result-cases out.0) [
    | inr (x, bad) ↦ absurd (ground arith)
    | inl (k, good) ↦
        let r = h.success k good in
        record {
          at_most = ground (arith, r.at_most);
          gone = ground (arith, r.gone);
          fates = (Pruned-trans cutoff m n out.1 first (ground (arith, r.gone), r.fates)).1;
        }
  ];
  failure = λ y e. elim (Result-cases out.0) [
    | inr (x, bad) ↦ Pruned-trans cutoff m n out.1 first (h.failure x bad)
    | inl (k, good) ↦ absurd (ground arith)
  ];
}

prune_loop-Removes :
    (heap : CompletedTaskHeap) (left cutoff : ℕ) (m : BrokerStateMachine)
    → Ends (Removes cutoff left m) (Pruned cutoff m) (prune_loop heap left cutoff m)
unfolding prune_loop
prune_loop-Removes heap zero cutoff m = stopped-Removes cutoff zero m
prune_loop-Removes [] (suc left) cutoff m = stopped-Removes cutoff (suc left) m
prune_loop-Removes ((at, id) ∷ heap) (suc left) cutoff m =
    let popped = record m { completed_tasks = heap } in
    elim (Bool-cases (ltb cutoff at)) [
      | inl late ↦ rw (late, prune_loop) (stopped-Removes cutoff (suc left) m)
      | inr due ↦ elim (Option-cases (completed_namespace at (get id m.tasks))) [
        | inl skip ↦
            let ih = prune_loop-Removes heap (suc left) cutoff popped in
            rw (due, skip, prune_loop)
              (record {
                success = λ n e.
                    let r = ih.success n e in
                    record { at_most = r.at_most; gone = r.gone; fates = r.fates };
                failure = λ x e. ih.failure x e;
              })
        | inr (ns, found) ↦
            let n = (prune_task id ns popped).1 in
            let first = prune_task-Pruned id ns at cutoff popped found due in
            let fewer = prune_task_shrinks id ns at cutoff popped found due in
            elim (Result-cases (prune_task id ns popped).0) [
              | inr (x, bad) ↦
                  rw (due, found, bad, prune_loop)
                    (record { success = λ k e. absurd (ground arith); failure = λ y e. first })
              | inl (u, good) ↦
                  let ih = prune_loop-Removes heap left cutoff n in
                  rw (due, found, good, prune_loop)
                    (counted-Removes cutoff left m n _ first fewer ih)
            ]
      ]
    ]

length-select_completed :
    (heap : CompletedTaskHeap) (room cutoff : ℕ) (tasks : Map TaskId Task)
    → length (select_completed heap room cutoff tasks) ≤ room
unfolding select_completed
length-select_completed heap zero cutoff tasks = ground arith
length-select_completed [] (suc room) cutoff tasks = ground arith
length-select_completed ((at, id) ∷ heap) (suc room) cutoff tasks = ground (
  arith,
  length-select_completed heap room cutoff tasks,
  length-select_completed heap (suc room) cutoff tasks,
)

steady {ℓ} :
    {A : Type ℓ} (cutoff : ℕ) (m : BrokerStateMachine)
    (out : Result StateMachineError A × BrokerStateMachine)
    → Pruned cutoff m out.1
    → Ends (λ _ n. Pruned cutoff m n) (Pruned cutoff m) out
steady cutoff m out p = record { success = λ _ _. p; failure = λ _ _. p }

after_Pruned :
    {A : Type 0} (count : A → ℕ) (cutoff left : ℕ) (m n : BrokerStateMachine)
    (out : Result StateMachineError A × BrokerStateMachine)
    → Pruned cutoff m n
    → Ends (λ x k. Removes cutoff left n (count x) k) (Pruned cutoff n) out
    → Ends (λ x k. Removes cutoff left m (count x) k) (Pruned cutoff m) out
after_Pruned count cutoff left m n out first h = record {
  success = λ k e.
      let r = h.success k e in
      record {
        at_most = r.at_most;
        gone = ground (arith, r.gone, first.0);
        fates = (Pruned-trans cutoff m n out.1 first (ground (arith, r.gone), r.fates)).1;
      };
  failure = λ x e. Pruned-trans cutoff m n out.1 first (h.failure x e);
}

done {ℓ} :
    {A : Type ℓ} {E : BrokerStateMachine → Type 0} (Q : A → BrokerStateMachine → Type 0) (x : A)
    (n : BrokerStateMachine)
    → Q x n
    → Ends Q E (ok x, n)
done Q x n q = record {
  success = λ y e. (let p : x ≡ y = cc in subst (λ z. Q z n) p q);
  failure = λ y e. absurd (ground arith);
}

revised :
    (cutoff left k next : ℕ) (m n : BrokerStateMachine) (b : Bool)
    → Removes cutoff left m k n
    → Removes cutoff left m k (if b then set_revision next n else n)
revised cutoff left k next m n true r = record {
  at_most = r.at_most;
  gone = r.gone;
  fates = r.fates;
}
revised cutoff left k next m n false r = r

prune_selected-Removes :
    (selected : List NamespaceId) (cutoff : ℕ) (m : BrokerStateMachine)
    → Ends
        (λ r n. Removes cutoff (length selected) m r.pruned_count n)
        (Pruned cutoff m)
        (prune_selected selected cutoff m)
unfolding prune_selected next_global_revision
prune_selected-Removes selected cutoff m =
    let left = length selected in
    bind-Ends _ _ m (steady cutoff m _ (same_tasks cutoff m)) λ _ m₁ p₁.
      bind-Ends _ _ m₁ (steady cutoff m _ p₁) λ _ m₂ p₂.
        bind-Ends _ _ m₂ (steady cutoff m _ p₂) λ next m₃ p₃.
          bind-Ends _ _ m₃
            (after_Pruned (λ k. k) cutoff left m m₃ _ p₃ (prune_loop-Removes _ left cutoff m₃))
            λ k m₄ r.
              let kept = revised cutoff left k next m m₄ (ltb 0 k) r in
              bind-Ends _ _ m₄ (done (λ _ n. Removes cutoff left m k n) tt _ kept) λ _ m₅ r'.
                bind-Ends _ _ m₅ (done (λ _ n. Removes cutoff left m k n) m₅ m₅ r')
                  λ _ m₆ r''. done (λ r n. Removes cutoff left m r.pruned_count n) _ m₆ r''

prune_choice-Removes :
    (selected : List NamespaceId) (empty : CompletedTasksPrunedResult) (room cutoff : ℕ)
    (m : BrokerStateMachine)
    → empty.pruned_count ≡ 0
    → length selected ≤ room
    → Ends
        (λ r n. Removes cutoff room m r.pruned_count n)
        (Pruned cutoff m)
        ((elim selected as (λ _. Action CompletedTasksPrunedResult) [
          | [] ↦ pure empty
          | n ∷ ns ↦ prune_selected (n ∷ ns) cutoff
        ])
          m)
prune_choice-Removes [] empty room cutoff m none_selected fits =
    done (λ r n. Removes cutoff room m r.pruned_count n) empty m
      (record { at_most = ground arith; gone = ground arith; fates = λ _. inl refl })
prune_choice-Removes (x ∷ xs) empty room cutoff m none_selected fits =
    let h = prune_selected-Removes (x ∷ xs) cutoff m in
    record {
      success = λ r e.
          let k = h.success r e in
          record { at_most = ground (arith, k.at_most); gone = k.gone; fates = k.fates };
      failure = λ y e. h.failure y e;
    }

prune_completed_tasks-Ends :
    (c : PruneCompletedTasksCommand) (m : BrokerStateMachine)
    → Ends
        (λ r n. Removes c.completed_before_ms c.max_tasks m r.pruned_count n)
        (Pruned c.completed_before_ms m)
        (prune_completed_tasks c m)
unfolding prune_completed_tasks
prune_completed_tasks-Ends c m =
    let cutoff = c.completed_before_ms in
    bind-Ends _ _ m (steady cutoff m _ (same_tasks cutoff m)) λ _ m₁ p₁.
      bind-Ends _ _ m₁ (steady cutoff m _ p₁) λ x m₂ p₂.
        after_Pruned (λ r. r.pruned_count) cutoff c.max_tasks m m₂ _ p₂
          (prune_choice-Removes (select_completed x.completed_tasks c.max_tasks cutoff x.tasks) _
            c.max_tasks cutoff m₂ refl
            (length-select_completed x.completed_tasks c.max_tasks cutoff x.tasks))

-- A prune that succeeds reports no more tasks than it was allowed to remove, and at least as many
-- have gone as it reports. A task that was there before it, in whatever state, is there unchanged, or
-- it is gone and had been completed at the cutoff or before. No task is added.
pub prune_completed_tasks-Removes :
    (c : PruneCompletedTasksCommand) (m : BrokerStateMachine) (r : CompletedTasksPrunedResult)
    → (prune_completed_tasks c m).0 ≡ ok r
    → Removes c.completed_before_ms c.max_tasks m r.pruned_count (prune_completed_tasks c m).1
prune_completed_tasks-Removes c m r h = (prune_completed_tasks-Ends c m).success r h

-- Also a prune that fails leaves a task unchanged, or the task is gone and had been completed.
pub prune_completed_tasks-Fate :
    (c : PruneCompletedTasksCommand) (m : BrokerStateMachine) (id : TaskId)
    → Fate c.completed_before_ms (get id m.tasks) (get id (prune_completed_tasks c m).1.tasks)
prune_completed_tasks-Fate c m id =
    let ends = prune_completed_tasks-Ends c m in
    elim (Result-cases (prune_completed_tasks c m).0) [
      | inl (r, e) ↦ (ends.success r e).fates id
      | inr (x, e) ↦ (ends.failure x e).1 id
    ]
