-- ===== src/Storage/Repository.antt =====
-- crates/agent-broker-storage/src/repository.rs: the journal as bytes, its records, and their replay.
-- serde_json is a parameter: what it parses and what it prints. Files can be read and written.
use Prim.Native.String.{String}
use herterarchy_broker.Common.{
  ℕ, ◌+◌, Bool, true, false, not, List, [], ◌∷◌, ◌++◌, length, Option, none, some, Result, ok, err,
  ◌>>=◌, ◌>>◌, map_err, reject_if, nat_eq, ltb, if◌then◌else◌,
}
use herterarchy_broker.Machine.State.{BrokerState}
use herterarchy_broker.Machine.Results.{StateChangeSet}
use herterarchy_broker.Machine.Recovery.{BrokerCheckpoint}
use herterarchy_broker.Application.Messages.{Message, literal, format, string, number}
use herterarchy_broker.Storage.Errors.{StorageError, invalid_format, serialization}
use herterarchy_broker.Storage.Journal.{
  JournalMutationWire, JournalMutation, mutation_to_wire, mutation_from_wire,
  apply_journal_mutation,
}
use herterarchy_broker.Storage.Snapshot.{SnapshotWire, checkpoint_to_wire, snapshot_from_wire}
pub mod Records
pub mod Replay

-- `serde_json::from_slice` and `to_vec` for the two records, with the text of the error, and whether
-- a slice is any JSON value
pub record Serializer : Type 0 where
  pub mutation_from_slice : List ℕ → Result (List ℕ) JournalMutationWire
  pub mutation_to_vec : JournalMutationWire → Result (List ℕ) (List ℕ)
  pub snapshot_from_slice : List ℕ → Result (List ℕ) SnapshotWire
  pub snapshot_to_vec : SnapshotWire → Result (List ℕ) (List ℕ)
  pub is_value : List ℕ → Bool

abbrev pub newline : ℕ
newline = b'\n'

abbrev pub max_journal_record_bytes : ℕ
max_journal_record_bytes = 134_217_728

unfoldable pub encode_snapshot : Serializer → BrokerCheckpoint → Result StorageError (List ℕ)
unfolding checkpoint_to_wire
encode_snapshot json c =
    map_err (λ e. serialization (format "{error}" (string e ∷ [])))
      (json.snapshot_to_vec (checkpoint_to_wire c))

unfoldable pub decode_snapshot : Serializer → List ℕ → Result StorageError BrokerCheckpoint
unfolding snapshot_from_wire
decode_snapshot json bytes = do
  wire ←
      map_err (λ e. invalid_format (format "invalid Broker snapshot JSON: {error}" (string e ∷ [])))
        (json.snapshot_from_slice bytes)
  snapshot_from_wire wire

unfoldable pub encode_journal_mutation :
    Serializer → BrokerState → StateChangeSet → Result StorageError (List ℕ)
unfolding mutation_to_wire
encode_journal_mutation json s changes = do
  wire ← mutation_to_wire s changes
  encoded ←
      map_err (λ e. serialization (format "{error}" (string e ∷ []))) (json.mutation_to_vec wire)
  ok (encoded ++ (newline ∷ []))

unfoldable pub decode_journal_mutation : Serializer → List ℕ → Result StorageError JournalMutation
unfolding mutation_from_wire
decode_journal_mutation json bytes = do
  wire ←
      map_err (λ e. invalid_format (format "invalid journal record JSON: {error}" (string e ∷ [])))
        (json.mutation_from_slice bytes)
  mutation_from_wire wire

-- a byte in front of the first record
abbrev pub grow : ℕ → List (List ℕ) → List (List ℕ)
grow b [] = (b ∷ []) ∷ []
grow b (r ∷ rs) = (b ∷ r) ∷ rs

-- The records that `read_bounded_record` reads one after the other: each ends with the next newline, or
-- at the end of the file.
unfoldable pub records : List ℕ → List (List ℕ)
records [] = []
records (b ∷ bs) =
    let rest = records bs in if nat_eq b newline then (b ∷ []) ∷ rest else grow b rest

unfoldable pub ends_with_newline : List ℕ → Bool
ends_with_newline [] = false
ends_with_newline (b ∷ []) = nat_eq b newline
ends_with_newline (b ∷ c ∷ bs) = ends_with_newline (c ∷ bs)

unfoldable pub check_length : List ℕ → Result StorageError (Unit {0})
check_length line = reject_if (ltb max_journal_record_bytes (length line)) (
    invalid_format (
      format "journal record exceeds {MAX_JOURNAL_RECORD_BYTES} bytes"
        (number max_journal_record_bytes ∷ [])))

-- A record that cannot be read is cut off if it is the last one.
abbrev pub torn :
    List (List ℕ)
    → String
    → BrokerCheckpoint
    → Result StorageError (BrokerCheckpoint × List (List ℕ))
torn [] reason c = ok (c, [])
torn (r ∷ rs) reason c = err (invalid_format (literal reason))

unfoldable pub apply_line :
    Serializer → List ℕ → BrokerCheckpoint → Result StorageError BrokerCheckpoint
unfolding decode_journal_mutation apply_journal_mutation
apply_line json line c = do
  mutation ← decode_journal_mutation json line
  let (applied, c') = apply_journal_mutation mutation c
  applied >>= λ _. ok c'

-- The loop of `replay_journal`: the checkpoint, and the records that the journal keeps.
unfoldable pub replay_records :
    Serializer
    → List (List ℕ)
    → BrokerCheckpoint
    → Result StorageError (BrokerCheckpoint × List (List ℕ))
unfolding ends_with_newline check_length apply_line
replay_records json [] c = ok (c, [])
replay_records json (line ∷ rest) c =
    let step = apply_line json line c >>= λ c'.
    replay_records json rest c' >>= λ out. ok (out.0, line ∷ out.1) in
    check_length line >>= λ _.
    (if not (ends_with_newline line)
      then torn rest "journal contains a torn record before its tail" c
      else if not (json.is_value line)
      then torn rest "journal contains invalid JSON before its tail" c
      else step)
