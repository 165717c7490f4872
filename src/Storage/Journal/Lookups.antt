-- ===== src/Storage/Journal/Lookups.antt =====
-- What a journaled mutation does to a checkpoint, entry by entry.
use Prim.Native.String.{String}
use herterarchy_broker.Common.{
  ℕ, ◌+◌, ◌≤◌, ◌<◌, ◌≡◌, refl, ap, subst, ◌∙◌, inl, inr, true, false, List, [], ◌∷◌, map, Option,
  none, some, ok, err, arith, ltb, if◌then◌else◌, Bool-cases, Result-cases,
}
use herterarchy_broker.Common.Keys.{◌==◌}
use herterarchy_broker.Common.Sorting.{sort_by, find, find-sort_by}
use herterarchy_broker.Common.Sets.{contains, extend, contains-extend}
use herterarchy_broker.Fencing.{next, u64_max, checked_add}
use herterarchy_broker.Identifiers.{Identifier, NamespaceId, TaskId, ConsumerGroupId}
use herterarchy_broker.Identifiers.Order.{id_key}
use herterarchy_broker.Task.Checkpoint.{TaskCheckpoint}
use herterarchy_broker.Group.Checkpoint.{ConsumerGroupCheckpoint}
use herterarchy_broker.Machine.State.{BrokerStateMachine}
use herterarchy_broker.Machine.Recovery.{NamespaceCheckpoint, BrokerCheckpoint, from_checkpoint}
use herterarchy_broker.Storage.Errors.{revision_gap, backward_term}
use herterarchy_broker.Storage.Journal.{
  JournalMutation, ensure_local_revision, upsert, upsert_all, upsert_namespaces, upsert_groups,
  upsert_tasks, assembled, namespace_id_of, group_id_of, task_id_of, sort_members, sort_checkpoint,
  without, candidate, check_order, apply_journal_mutation,
}

-- The last of the updates with an identifier, or else what was there.
abbrev pub latest {ℓ} : {A : Type ℓ} → (A → Identifier) → Identifier → List A → Option A → Option A
latest of id [] old = old
latest of id (x ∷ xs) old = latest of id xs (if of x == id then some x else old)

find-upsert {ℓ} :
    {A : Type ℓ} (entity : String) (of : A → Identifier) (revision : A → ℕ) (id : Identifier)
    (x : A) (xs ys : List A)
    → upsert entity of revision x xs ≡ ok ys
    → find of id ys ≡ (if of x == id then some x else find of id xs)
unfolding upsert find ensure_local_revision
find-upsert entity of revision id x [] ys h = ground arith
find-upsert entity of revision id x (y ∷ xs) ys h = elim (Bool-cases (of y == of x)) [
  | inl same ↦
      let e : of y ≡ of x = (id_key.beq_iff (of y) (of x)).0 same in
      elim (Bool-cases (ltb (revision x) (revision y))) [
        | inl older ↦ absurd (ground arith)
        | inr newer ↦ let e' : x ∷ xs ≡ ys = ground arith in ground arith
      ]
  | inr other ↦ elim (Result-cases (upsert entity of revision x xs)) [
    | inr (e, q) ↦ absurd (ground arith)
    | inl (zs, q) ↦
        let e' : y ∷ zs ≡ ys = ground arith in
        ground (
          arith,
          find-upsert entity of revision id x xs zs q,
          id_key.beq_iff (of y) (of x),
          id_key.beq_iff (of x) id,
          id_key.beq_iff (of y) id,
        )
  ]
]

find-upsert_all {ℓ} :
    {A : Type ℓ} (entity : String) (of : A → Identifier) (revision : A → ℕ) (id : Identifier)
    (xs values ys : List A)
    → upsert_all entity of revision xs values ≡ ok ys
    → find of id ys ≡ latest of id xs (find of id values)
unfolding upsert_all
find-upsert_all entity of revision id [] values ys h = ground arith
find-upsert_all entity of revision id (x ∷ xs) values ys h =
    elim (Result-cases (upsert entity of revision x values)) [
      | inr (e, q) ↦ absurd (ground arith)
      | inl (zs, q) ↦ ground (
        arith,
        find-upsert_all entity of revision id xs zs ys,
        find-upsert entity of revision id x values zs q,
      )
    ]

find-without :
    (deleted : List TaskId) (id : TaskId) (ts : List TaskCheckpoint)
    → find task_id_of id (without deleted ts)
      ≡ (if contains id deleted then none else find task_id_of id ts)
unfolding find
find-without deleted id [] = ground arith
find-without deleted id (t ∷ ts) =
    ground (arith, find-without deleted id ts, id_key.beq_iff t.task_id id)

abbrev pub sorted_members : Option ConsumerGroupCheckpoint → Option ConsumerGroupCheckpoint
sorted_members none = none
sorted_members (some g) = some (sort_members g)

find-sort_members :
    (id : ConsumerGroupId) (gs : List ConsumerGroupCheckpoint)
    → find group_id_of id (map sort_members gs) ≡ sorted_members (find group_id_of id gs)
unfolding find sort_members
find-sort_members id [] = refl
find-sort_members id (g ∷ gs) = elim (Bool-cases (g.group_id == id)) [
  | inl this ↦ ground arith
  | inr other ↦ ground (arith, find-sort_members id gs)
]

-- The candidate has the term and the revision of the mutation, a machine can be restored from it, and
-- each identifier leads to the last update of it, or else to what it led to; a deleted task is gone, and
-- the members of groups are sorted.
abbrev pub Applied : BrokerCheckpoint → JournalMutation → BrokerCheckpoint → Type 0
Applied c m c' =
    (c'.term ≡ m.term)
    × (c'.revision ≡ m.revision)
    × ((machine : BrokerStateMachine) × (from_checkpoint c' ≡ ok machine))
    × ((id : NamespaceId)
        → find namespace_id_of id c'.namespaces
          ≡ latest namespace_id_of id m.namespaces (find namespace_id_of id c.namespaces))
    × ((id : TaskId)
        → find task_id_of id c'.tasks ≡ (
            if contains id m.deleted_tasks
            then none
            else latest task_id_of id m.tasks (find task_id_of id c.tasks)))
    × ((id : ConsumerGroupId)
        → find group_id_of id c'.groups
          ≡ sorted_members (latest group_id_of id m.groups (find group_id_of id c.groups)))

deleted-extend :
    (id : TaskId) (deleted : List TaskId) → contains id (extend deleted []) ≡ contains id deleted
unfolding contains
deleted-extend id deleted = ground (arith, contains-extend deleted [] id)

assembled-Applied :
    (c : BrokerCheckpoint) (m : JournalMutation) (ns : List NamespaceCheckpoint)
    (gs : List ConsumerGroupCheckpoint) (ts : List TaskCheckpoint) (machine : BrokerStateMachine)
    → upsert_namespaces m.namespaces c.namespaces ≡ ok ns
    → upsert_groups m.groups c.groups ≡ ok gs
    → upsert_tasks m.tasks c.tasks ≡ ok ts
    → from_checkpoint (sort_checkpoint (assembled m ns gs ts)) ≡ ok machine
    → Applied c m (sort_checkpoint (assembled m ns gs ts))
unfolding upsert_namespaces upsert_groups upsert_tasks sort_checkpoint
assembled-Applied c m ns gs ts machine p q r restored = (
  refl,
  refl,
  (machine, restored),
  λ id.
      find-sort_by namespace_id_of id ns
      ∙ find-upsert_all "namespace" namespace_id_of (λ n. n.revision) id m.namespaces c.namespaces
          ns p,
  λ id.
      let deleted = extend m.deleted_tasks [] in
      find-sort_by task_id_of id (without deleted ts)
      ∙ (find-without deleted id ts
          ∙ rw
              (
                deleted-extend id m.deleted_tasks,
                find-upsert_all "task" task_id_of (λ t. t.revision) id m.tasks c.tasks ts r,
              )
              refl),
  λ id.
      find-sort_members id (sort_by group_id_of gs)
      ∙ ap sorted_members (
          find-sort_by group_id_of id gs
          ∙ find-upsert_all "Consumer Group" group_id_of (λ g. g.revision) id m.groups c.groups gs
              q),
)

candidate-Applied :
    (c : BrokerCheckpoint) (m : JournalMutation) (c' : BrokerCheckpoint)
    → candidate c m ≡ ok c'
    → Applied c m c'
unfolding candidate
candidate-Applied c m c' h = elim (Result-cases (upsert_namespaces m.namespaces c.namespaces)) [
  | inr (e, p) ↦ absurd (ground arith)
  | inl (ns, p) ↦ elim (Result-cases (upsert_groups m.groups c.groups)) [
    | inr (e, q) ↦ absurd (ground arith)
    | inl (gs, q) ↦ elim (Result-cases (upsert_tasks m.tasks c.tasks)) [
      | inr (e, r) ↦ absurd (ground arith)
      | inl (ts, r) ↦
          let applied = sort_checkpoint (assembled m ns gs ts) in
          elim (Result-cases (from_checkpoint applied)) [
            | inr (e, x) ↦ absurd (ground arith)
            | inl (machine, x) ↦
                let same : applied ≡ c' = ground arith in
                subst (Applied c m) same (assembled-Applied c m ns gs ts machine p q r x)
          ]
    ]
  ]
]

-- A mutation that is applied is the next one, of no older term. Every identifier of the new checkpoint
-- leads to the last update of it, or else to what it led to before; deleted tasks are gone, the members
-- of groups are sorted, and a machine can be restored from the checkpoint.
pub apply_journal_mutation-Applied :
    (m : JournalMutation) (c c' : BrokerCheckpoint)
    → apply_journal_mutation m c ≡ (ok true, c')
    → (m.revision ≡ c.revision + 1) × (m.revision ≤ u64_max) × (c.term ≤ m.term) × Applied c m c'
unfolding apply_journal_mutation check_order next checked_add
apply_journal_mutation-Applied m c c' h = elim (Result-cases (check_order c m)) [
  | inr (e, p) ↦ absurd (ground arith)
  | inl (u, p) ↦ elim (Result-cases (candidate c m)) [
    | inr (e, q) ↦ absurd (ground arith)
    | inl (d, q) ↦
        let same : d ≡ c' = ground arith in
        (ground arith, ground arith, ground arith, candidate-Applied c m c' (q ∙ ap ok same))
  ]
]

-- A mutation that is no newer than the checkpoint is ignored, one that skips a revision is refused as a
-- gap, and the next one is refused if its term is older; the checkpoint stays each time.
pub apply_journal_mutation-refused :
    (m : JournalMutation) (c : BrokerCheckpoint)
    → m.revision ≤ u64_max
    → (m.revision ≤ c.revision → apply_journal_mutation m c ≡ (ok false, c))
      × (c.revision + 1 < m.revision
          → apply_journal_mutation m c ≡ (err (revision_gap (c.revision + 1) m.revision), c))
      × (m.revision ≡ c.revision + 1
          → m.term < c.term
          → apply_journal_mutation m c ≡ (err (backward_term c.term m.term), c))
unfolding apply_journal_mutation check_order next checked_add
apply_journal_mutation-refused m c bound =
    (λ h. ground arith, λ h. ground arith, λ h k. ground arith)
