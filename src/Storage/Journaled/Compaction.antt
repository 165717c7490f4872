-- ===== src/Storage/Journaled/Compaction.antt =====
-- The journal does not grow past its thresholds, unless a compaction was put off.
use herterarchy_broker.Common.{◌≤◌, ◌<◌, ◌≡◌, ◌⊎◌, true, false, ok, err}
use herterarchy_broker.Machine.State.{BrokerState}
use herterarchy_broker.Machine.Results.{StateChangeSet}
use herterarchy_broker.Machine.Recovery
use herterarchy_broker.Storage.Errors.{RepositoryError}
use herterarchy_broker.Storage.Repository.{Serializer}
use herterarchy_broker.Storage.Journaled.{
  JournalCompactionPolicy, JournaledBrokerStateRepository, Files, should_compact, compact, commit,
}

abbrev pub IsPolicy : JournalCompactionPolicy → Type 0
IsPolicy p = (1 ≤ p.compact_every) × (4_096 ≤ p.max_journal_bytes)

module _ {D : Type 0} (json : Serializer) (files : Files D) where
  -- The commit is a compaction: its outcome and its disk are those of the compaction, which clears the
  -- flag if it succeeds.
  abbrev Compacts : BrokerState → StateChangeSet → JournaledBrokerStateRepository D → Type 0
  Compacts s changes r =
      ((commit json files s changes r).0 ≡ (compact json files s r).0)
      × ((commit json files s changes r).1.disk ≡ (compact json files s r).1.disk)
      × ((((compact json files s r).0 ≡ ok tt)
            × ((commit json files s changes r).1.compaction_deferred ≡ false))
          ⊎ ((e : RepositoryError) × ((compact json files s r).0 ≡ err e)
              × ((commit json files s changes r).1.compaction_deferred ≡ true)))

  -- A compaction of the state was due and has failed, and any next commit compacts.
  abbrev IsDeferred : BrokerState → JournaledBrokerStateRepository D → Type 0
  IsDeferred s r =
      (r₁ : JournaledBrokerStateRepository D) × (e : RepositoryError) × (should_compact r₁ ≡ true)
      × ((compact json files s r₁).0 ≡ err e)
      × (r ≡ record ((compact json files s r₁).1) { compaction_deferred = true })
      × ((t : BrokerState) (changes : StateChangeSet) → Compacts t changes r)

  -- Fewer commits and bytes than the policy permits, or a failed compaction of the state was put off.
  abbrev pub IsWithin : BrokerState → JournaledBrokerStateRepository D → Type 0
  IsWithin s r =
      IsDeferred s r
      ⊎ ((r.commits_since_compaction < r.policy.compact_every)
          × (r.journal_bytes < r.policy.max_journal_bytes))
