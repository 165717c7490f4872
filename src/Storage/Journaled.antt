-- ===== src/Storage/Journaled.antt =====
-- crates/agent-broker-storage/src/repository.rs: the compaction policy, and `load` and `commit` of the
-- journaled repository. The file operations are a parameter: each may fail, whatever it has done by then.
pub mod Compaction
use Prim.Native.String.{String}
use herterarchy_broker.Common.{
  ℕ, ◌+◌, ◌-◌, ◌≤◌, ◌<◌, ◌≡◌, ◌⊎◌, refl, inl, inr, Bool, true, false, not, ◌||◌, List, [], ◌∷◌,
  length, Option, none, some, Result, ok, err, ◌>>=◌, ◌>>◌, map_err, ok_or, reject_if, nat_eq, ltb,
  leb, if◌then◌else◌, arith, Bool-cases, Result-cases, Option-cases,
}
use herterarchy_broker.Fencing.{checked_add}
use herterarchy_broker.Machine.State.{BrokerState}
use herterarchy_broker.Machine.Results.{StateChangeSet}
use herterarchy_broker.Machine.Recovery.{BrokerCheckpoint}
use herterarchy_broker.Machine.Recovery
use herterarchy_broker.Application.Messages.{literal}
use herterarchy_broker.Storage.Errors.{
  StorageError, RepositoryError, invalid_format, invalid_configuration, storage,
}
use herterarchy_broker.Storage.Repository.{
  Serializer, records, replay_records, encode_snapshot, decode_snapshot, encode_journal_mutation,
}
use herterarchy_broker.Storage.Repository.Records.{joined}

pub record JournalCompactionPolicy : Type 0 where
  pub compact_every : ℕ
  pub max_journal_bytes : ℕ

-- `JournalCompactionPolicy::new`
unfoldable pub new_policy : ℕ → ℕ → Result RepositoryError JournalCompactionPolicy
new_policy compact_every max_journal_bytes = do
  reject_if (nat_eq compact_every 0) (invalid_configuration "compact_every must be positive")
  reject_if (ltb max_journal_bytes 4_096)
      (invalid_configuration "max_journal_bytes must be at least 4096")
  ok (record { compact_every = compact_every; max_journal_bytes = max_journal_bytes })

-- The files of a repository, on a disk `D`: an operation returns its outcome and the disk afterwards.
pub record Files (D : Type 0) : Type 0 where
  pub read_snapshot : D → Result RepositoryError (Option (List ℕ))
  pub read_journal : D → Result RepositoryError (Option (List ℕ))
  pub journal_size : D → Result RepositoryError ℕ
  pub truncate_torn_tail : ℕ → D → Result RepositoryError (Unit {0}) × D
  pub append_synced : List ℕ → D → Result RepositoryError (Unit {0}) × D
  pub write_snapshot_atomic : List ℕ → D → Result RepositoryError (Unit {0}) × D
  pub truncate_synced : D → Result RepositoryError (Unit {0}) × D

abbrev pub empty_checkpoint : BrokerCheckpoint
empty_checkpoint = record { term = 1; revision = 0; namespaces = []; tasks = []; groups = [] }

pub record JournaledBrokerStateRepository (D : Type 0) : Type 0 where
  pub policy : JournalCompactionPolicy
  pub commits_since_compaction : ℕ
  pub journal_bytes : ℕ
  pub compaction_deferred : Bool
  pub disk : D

-- `JournaledBrokerStateRepository::new`
unfoldable pub new_repository :
    {D : Type 0} → JournalCompactionPolicy → D → JournaledBrokerStateRepository D
new_repository policy disk = record {
  policy = policy;
  commits_since_compaction = 0;
  journal_bytes = 0;
  compaction_deferred = false;
  disk = disk;
}

unfoldable pub should_compact : {D : Type 0} → JournaledBrokerStateRepository D → Bool
should_compact r =
    leb r.policy.compact_every r.commits_since_compaction
    || leb r.policy.max_journal_bytes r.journal_bytes

module _ {D : Type 0} (json : Serializer) (files : Files D) where
  abbrev Repository : Type 0
  Repository = JournaledBrokerStateRepository D

  -- a method that takes `&mut self`
  abbrev Outcome : Type 0 → Type 0
  Outcome A = Result RepositoryError A × Repository

  unfoldable pub load_snapshot : D → Result RepositoryError BrokerCheckpoint
  unfolding decode_snapshot
  load_snapshot disk = files.read_snapshot disk >>= λ found. elim found [
    | none ↦ ok empty_checkpoint
    | some payload ↦ map_err storage (decode_snapshot json payload)
  ]

  -- the truncation at the end of `replay_journal`, when the journal has a torn tail
  abbrev cut : ℕ → ℕ → D → Result RepositoryError (Unit {0}) × D
  cut size kept disk =
      if nat_eq kept size then (ok tt, disk) else files.truncate_torn_tail kept disk

  unfoldable pub replay_journal :
      List ℕ → BrokerCheckpoint → D → Result RepositoryError BrokerCheckpoint × D
  unfolding replay_records records
  replay_journal journal snapshot disk =
      elim (map_err storage (replay_records json (records journal) snapshot)) [
        | err e ↦ (err e, disk)
        | ok (c, kept) ↦
            let (done, disk') = cut (length journal) (length (joined kept)) disk in
            (done >>= λ _. ok c, disk')
      ]

  -- the journal, if there is one, and its size once it has been replayed and cut
  abbrev replay_found :
      Option (List ℕ)
      → BrokerCheckpoint
      → Repository
      → Result RepositoryError (BrokerCheckpoint × ℕ) × D
  replay_found none snapshot r = (ok (snapshot, r.journal_bytes), r.disk)
  replay_found (some journal) snapshot r =
      let (replayed, disk') = replay_journal journal snapshot r.disk in
      (replayed >>= λ c. files.journal_size disk' >>= λ bytes. ok (c, bytes), disk')

  -- the snapshot, and the journal if it exists
  abbrev read_files : D → Result RepositoryError (BrokerCheckpoint × Option (List ℕ))
  read_files disk = do c ← load_snapshot disk; found ← files.read_journal disk; ok (c, found)

  unfoldable pub load : Repository → Outcome BrokerCheckpoint
  unfolding load_snapshot replay_journal
  load r = elim (read_files r.disk) [
    | err e ↦ (err e, r)
    | ok (snapshot, found) ↦
        let (replayed, disk') = replay_found found snapshot r in
        elim replayed [
          | err e ↦ (err e, record r { disk = disk' })
          | ok (c, bytes) ↦ (
            ok c,
            record r {
              journal_bytes = bytes;
              commits_since_compaction = c.revision - snapshot.revision;
              compaction_deferred = false;
              disk = disk';
            },
          )
        ]
  ]

  unfoldable pub compact : BrokerState → Repository → Outcome (Unit {0})
  unfolding encode_snapshot Recovery.checkpoint
  compact s r = elim (map_err storage (encode_snapshot json (Recovery.checkpoint s))) [
    | err e ↦ (err e, r)
    | ok payload ↦
        let (written, disk₁) = files.write_snapshot_atomic payload r.disk in
        let (truncated, disk₂) = files.truncate_synced disk₁ in
        elim written [
          | err e ↦ (err e, record r { disk = disk₁ })
          | ok _ ↦ elim truncated [
            | err e ↦ (err e, record r { disk = disk₂ })
            | ok _ ↦
                (ok tt, record r { commits_since_compaction = 0; journal_bytes = 0; disk = disk₂ })
          ]
        ]
  ]

  abbrev overflowed : String → RepositoryError
  overflowed reason = storage (invalid_format (literal reason))

  -- the end of `commit`: a compaction that fails is put off
  unfoldable pub compact_when_due : BrokerState → Repository → Outcome (Unit {0})
  unfolding should_compact compact
  compact_when_due s r =
      let (done, r') = compact s r in
      if should_compact r
      then (ok tt, elim done [ ok _ ↦ r' | err e ↦ record r' { compaction_deferred = true } ])
      else (ok tt, r)

  -- the accounting after an append of so many bytes
  unfoldable pub account : ℕ → BrokerState → Repository → Outcome (Unit {0})
  unfolding checked_add compact_when_due
  account bytes s r = elim (checked_add r.journal_bytes bytes) [
    | none ↦ (err (overflowed "journal byte accounting overflowed"), r)
    | some total ↦
        let r₁ = record r { journal_bytes = total } in
        elim (checked_add r.commits_since_compaction 1) [
          | none ↦ (err (overflowed "journal commit accounting overflowed"), r₁)
          | some commits ↦ compact_when_due s (record r₁ { commits_since_compaction = commits })
        ]
  ]

  abbrev append_record : BrokerState → StateChangeSet → Repository → Outcome (Unit {0})
  append_record s changes r = elim (map_err storage (encode_journal_mutation json s changes)) [
    | err e ↦ (err e, r)
    | ok payload ↦
        let (appended, disk') = files.append_synced payload r.disk in
        elim appended [
          | err e ↦ (err e, record r { disk = disk' })
          | ok _ ↦ account (length payload) s (record r { disk = disk' })
        ]
  ]

  abbrev compact_deferred : BrokerState → Repository → Outcome (Unit {0})
  compact_deferred s r =
      let (done, r') = compact s r in
      (done, elim done [ ok _ ↦ record r' { compaction_deferred = false } | err e ↦ r' ])

  unfoldable pub commit : BrokerState → StateChangeSet → Repository → Outcome (Unit {0})
  unfolding compact account encode_journal_mutation
  commit s changes r =
      if r.compaction_deferred then compact_deferred s r else append_record s changes r
