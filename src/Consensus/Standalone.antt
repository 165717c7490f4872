-- ===== src/Consensus/Standalone.antt =====
-- crates/agent-broker-consensus/src/standalone.rs: a single node that commits each mutation to its
-- repository before it answers. The repository is the port of crates/agent-broker-storage/src/repository.rs.
use Prim.Native.String.{String}
use herterarchy_broker.Common.{
  ◌≡◌, ◌≢◌, ◌⊎◌, refl, ap, ◌∙◌, inl, inr, Bool, true, false, List, [], ◌∷◌, map, Result, ok, err,
  ◌>>=◌, map_err, nat_eq, if◌then◌else◌, arith, Bool-cases, Result-cases,
}
use herterarchy_broker.Common.Maps.{values}
use herterarchy_broker.Fencing.{Revision}
use herterarchy_broker.Group.Directory.{ConsumerGroupDirectory, summary}
use herterarchy_broker.Machine
use herterarchy_broker.Machine.Commands.{BrokerCommand}
use herterarchy_broker.Machine.Results.{BrokerMutationResult, AppliedMutation, StateChangeSet}
use herterarchy_broker.Machine.State.{BrokerState, BrokerStateMachine}
use herterarchy_broker.Machine.Recovery.{BrokerCheckpoint, from_checkpoint}
use herterarchy_broker.Application.Errors.{
  BrokerError, BrokerErrorDisposition, persistence_error, new_error, from_machine_error,
}
use herterarchy_broker.Application.Messages.{literal, prefixed, shows_checkpoint}
use herterarchy_broker.Storage.Errors.{RepositoryError, shows_repository}
use herterarchy_broker.Storage.Repository.{Serializer}
use herterarchy_broker.Storage.Journaled.{JournaledBrokerStateRepository, Files, load, commit}

-- `trait BrokerStateRepository`, for repositories of the type `R`
pub record BrokerStateRepository (R : Type 0) : Type 0 where
  pub load : R → Result RepositoryError BrokerCheckpoint × R
  pub commit : BrokerState → StateChangeSet → R → Result RepositoryError (Unit {0}) × R

-- `impl BrokerStateRepository for JournaledBrokerStateRepository`
abbrev pub journaled :
    {D : Type 0} → Serializer → Files D → BrokerStateRepository (JournaledBrokerStateRepository D)
journaled json files = record { load = load json files; commit = commit json files }

abbrev pub fail_stopped_message : String
fail_stopped_message = "Standalone Broker is fail-stopped after a durability failure."

unfoldable pub repository_error : RepositoryError → BrokerError
unfolding new_error shows_repository
repository_error e = new_error persistence_error (shows_repository e)

-- `BrokerState::group_directory`
unfoldable pub directory_of : BrokerState → ConsumerGroupDirectory
unfolding summary
directory_of s = record {
  term = s.term;
  revision = s.revision;
  groups = map summary (values s.groups);
}

pub record StandaloneConsensusAdapter (R : Type 0) : Type 0 where
  pub repository : R
  pub machine : BrokerStateMachine
  pub poisoned : Bool

module _ {R : Type 0} (port : BrokerStateRepository R) where
  abbrev Adapter : Type 0
  Adapter = StandaloneConsensusAdapter R

  -- `StandaloneConsensusAdapter::new`
  unfoldable pub new_adapter : R → Result BrokerError Adapter
  unfolding repository_error new_error from_checkpoint
  new_adapter repository = do
    let (loaded, repository') = port.load repository
    checkpoint ← map_err repository_error loaded
    machine ←
        map_err
          (λ e.
            new_error persistence_error
              (prefixed "durable Broker checkpoint is invalid: " (shows_checkpoint e)))
          (from_checkpoint checkpoint)
    ok (record { repository = repository'; machine = machine; poisoned = false })

  abbrev pub fail_stopped : BrokerError
  fail_stopped = record {
    code = persistence_error;
    message = literal fail_stopped_message;
    disposition = BrokerErrorDisposition.unknown;
  }

  unfoldable pub group_directory : Adapter → Result BrokerError ConsumerGroupDirectory
  unfolding directory_of
  group_directory a = if a.poisoned then err fail_stopped else ok (directory_of a.machine.state)

  -- the end of `propose`: a result that moved the revision is committed before it is returned
  unfoldable pub conclude :
      AppliedMutation → Revision → Adapter → Result BrokerError BrokerMutationResult × Adapter
  unfolding repository_error
  conclude applied before_revision a =
      let (committed, repository') = port.commit a.machine.state applied.changes a.repository in
      let a' = record a { repository = repository' } in
      if nat_eq a.machine.revision before_revision then (ok applied.result, a) else elim committed [
        | err e ↦ (err (repository_error e), record a' { poisoned = true })
        | ok _ ↦ (ok applied.result, a')
      ]

  unfoldable pub propose :
      BrokerCommand → Adapter → Result BrokerError BrokerMutationResult × Adapter
  unfolding Machine.apply from_machine_error conclude
  propose command a =
      let (applied, machine') = Machine.apply command a.machine in
      let a' = record a { machine = machine' } in
      if a.poisoned then (err fail_stopped, a) else elim applied [
        | err e ↦ (err (from_machine_error e), a')
        | ok applied ↦ conclude applied a.machine.revision a'
      ]

  -- Any sequence of commands.
  unfoldable pub run : List BrokerCommand → Adapter → Adapter
  unfolding propose
  run [] a = a
  run (c ∷ cs) a = run cs (propose c a).1

  -- What an answered command leaves in the repository: the state of the machine, committed with the
  -- change set that the machine itself reported for the command; or what was there, if the command
  -- moved no revision.
  abbrev pub Durable : BrokerCommand → Adapter → BrokerMutationResult → Adapter → Type 0
  Durable command a result a' =
      (applied : AppliedMutation) × ((Machine.apply command a.machine).0 ≡ ok applied)
      × (result ≡ applied.result)
      × (((a'.machine.revision ≡ a.machine.revision) × (a'.repository ≡ a.repository))
          ⊎ ((a'.machine.revision ≢ a.machine.revision)
              × (port.commit a'.machine.state applied.changes a.repository
                  ≡ (ok tt, a'.repository))))

  conclude-ok :
      (applied : AppliedMutation) (a b b' : Adapter) (result : BrokerMutationResult)
      → b.repository ≡ a.repository
      → conclude applied a.machine.revision b ≡ (ok result, b')
      → (b'.machine ≡ b.machine)
        × (b'.poisoned ≡ b.poisoned)
        × (result ≡ applied.result)
        × (((b'.machine.revision ≡ a.machine.revision) × (b'.repository ≡ a.repository))
            ⊎ ((b'.machine.revision ≢ a.machine.revision)
                × (port.commit b'.machine.state applied.changes a.repository
                    ≡ (ok tt, b'.repository))))
  unfolding conclude
  conclude-ok applied a b b' result same h =
      elim (Bool-cases (nat_eq b.machine.revision a.machine.revision)) [
        | inl unmoved ↦
            let e : b ≡ b' = ground arith in
            rw (← e) (refl, refl, ground arith, inl (ground arith, same))
        | inr moved ↦
            let out = port.commit b.machine.state applied.changes b.repository in
            elim (Result-cases (out.0)) [
              | inr (x, failed) ↦ absurd (ground arith)
              | inl (u, done) ↦
                  let e : record b { repository = out.1 } ≡ b' = ground arith in
                  let committed : out ≡ (ok tt, out.1) = ap (λ o. (o, out.1)) done in
                  rw (← e)
                    (refl, refl, ground arith, inr (λ q. ground arith, rw (← same) committed))
            ]
      ]

  -- A proposal is answered with a result only by an adapter that is not fail-stopped, after the machine has
  -- applied the command, and the result is the machine's; and if the global revision moved, the
  -- repository has committed the new state with the change set that the machine reported for the command.
  pub propose-Durable :
      (command : BrokerCommand) (a a' : Adapter) (result : BrokerMutationResult)
      → propose command a ≡ (ok result, a')
      → (a.poisoned ≡ false)
        × (a'.poisoned ≡ false)
        × (a'.machine ≡ (Machine.apply command a.machine).1)
        × Durable command a result a'
  unfolding propose
  propose-Durable command a a' result h = elim (Bool-cases a.poisoned) [
    | inl stopped ↦ absurd (ground arith)
    | inr running ↦
        let out = Machine.apply command a.machine in
        elim (Result-cases (out.0)) [
          | inr (e, refused) ↦ absurd (ground arith)
          | inl (applied, accepted) ↦
              let b = record a { machine = out.1 } in
              let concluded : conclude applied a.machine.revision b ≡ (ok result, a') =
                ground arith in
              let (machine, kept, same, durable) =
                conclude-ok applied a b a' result refl concluded in
              (running, kept ∙ running, machine, (applied, accepted, same, durable))
        ]
  ]

  refuses :
      (command : BrokerCommand) (a : Adapter)
      → a.poisoned ≡ true
      → propose command a ≡ (err fail_stopped, a)
  unfolding propose
  refuses command a h = rw (h, propose) refl

  run_stopped : (cs : List BrokerCommand) (a : Adapter) → a.poisoned ≡ true → run cs a ≡ a
  unfolding run
  run_stopped [] a h = refl
  run_stopped (c ∷ cs) a h = ap (λ o. run cs (o.1)) (refuses c a h) ∙ run_stopped cs a h

  -- The proposal whose commit fails.
  propose-failed :
      (command : BrokerCommand) (a : Adapter) (applied : AppliedMutation) (e : RepositoryError)
      → a.poisoned ≡ false
      → (Machine.apply command a.machine).0 ≡ ok applied
      → (Machine.apply command a.machine).1.revision ≢ a.machine.revision
      → (port.commit (Machine.apply command a.machine).1.state applied.changes a.repository).0
        ≡ err e
      → ((propose command a).0 ≡ err (repository_error e)) × ((propose command a).1.poisoned ≡ true)
  unfolding propose conclude
  propose-failed command a applied e running accepted moved failed =
      let distinct : nat_eq (Machine.apply command a.machine).1.revision a.machine.revision
          ≡ false =
        ground arith in
      rw (running, accepted, distinct, failed, propose, conclude) (refl, refl)

  -- When a node that is not fail-stopped applies a command that moves the global revision, and the commit of
  -- the change set fails, the proposal is answered with that failure. From then on, whatever commands
  -- follow, neither the machine nor the repository is touched again, every proposal is refused with
  -- one error, and so is the reading of the group directory.
  pub fail_stops :
      (command : BrokerCommand) (a : Adapter) (applied : AppliedMutation) (e : RepositoryError)
      (cs : List BrokerCommand) (later : BrokerCommand)
      → a.poisoned ≡ false
      → (Machine.apply command a.machine).0 ≡ ok applied
      → (Machine.apply command a.machine).1.revision ≢ a.machine.revision
      → (port.commit (Machine.apply command a.machine).1.state applied.changes a.repository).0
        ≡ err e
      → ((propose command a).0 ≡ err (repository_error e))
        × (run cs (propose command a).1 ≡ (propose command a).1)
        × (propose later (run cs (propose command a).1) ≡ (err fail_stopped, (propose command a).1))
        × (group_directory (run cs (propose command a).1) ≡ err fail_stopped)
  unfolding group_directory
  fail_stops command a applied e cs later running accepted moved failed =
      let (answer, stopped) = propose-failed command a applied e running accepted moved failed in
      let same = run_stopped cs (propose command a).1 stopped in
      (answer, same, rw same (refuses later (propose command a).1 stopped), rw (same, stopped) refl)
