-- ===== src/Consensus/Snapshots.antt =====
-- crates/agent-broker-consensus/src/raft_state_machine.rs: the bytes of a snapshot, which are those of the
-- checkpoint and those of the command sessions behind a header. serde_json is a parameter.
use Prim.Native.String.{String}
use herterarchy_broker.Common.{
  ℕ, ◌+◌, ◌*◌, ◌/◌, ◌%◌, Bool, true, false, not, ◌&&◌, zero, suc, List, [], ◌∷◌, ◌++◌, length, take,
  Option, none, some, Result, ok, err, ◌>>=◌, ◌>>◌, map_err, ok_or, reject_if, nat_eq, ltb,
  if◌then◌else◌,
}
use herterarchy_broker.Fencing.{u64_max, checked_add}
use herterarchy_broker.Machine.Recovery.{BrokerCheckpoint, from_checkpoint}
use herterarchy_broker.Application.Messages.{
  Message, literal, format, number, string, shows_checkpoint,
}
use herterarchy_broker.Storage.Errors.{shows_storage}
use herterarchy_broker.Storage.Repository.{Serializer, encode_snapshot, decode_snapshot}
use herterarchy_broker.Consensus.Sessions.{IoError, invalid_state_machine_data}
use herterarchy_broker.Consensus.Sidecar.{
  CommandSessionsSnapshotV1, Sessions, sidecar_of, sessions_of, snapshot_version,
}
pub mod RoundTrip

-- `serde_json::from_slice` and `to_vec` for the sidecar, with the text of the error
pub record SidecarSerializer : Type 0 where
  pub from_slice : List ℕ → Result (List ℕ) CommandSessionsSnapshotV1
  pub to_vec : CommandSessionsSnapshotV1 → Result (List ℕ) (List ℕ)

abbrev pub header_bytes : ℕ
header_bytes = 28

-- `to_be_bytes` of so many bytes
abbrev pub be_bytes : ℕ → ℕ → List ℕ
be_bytes zero value = []
be_bytes (suc n) value = be_bytes n (value / 256) ++ (value % 256 ∷ [])

-- `from_be_bytes`, on top of the bytes read so far
abbrev pub from_be_bytes : List ℕ → ℕ → ℕ
from_be_bytes [] value = value
from_be_bytes (b ∷ bs) value = from_be_bytes bs (value * 256 + b)

abbrev pub drop : ℕ → List ℕ → List ℕ
drop zero bs = bs
drop (suc n) [] = []
drop (suc n) (b ∷ bs) = drop n bs

-- `data[first..last]`, given the number of bytes
abbrev pub slice : ℕ → ℕ → List ℕ → List ℕ
slice first count bytes = take count (drop first bytes)

-- `starts_with` of the magic `ABCSNP01`
abbrev pub starts_with : List ℕ → List ℕ → Bool
starts_with [] bytes = true
starts_with (m ∷ ms) [] = false
starts_with (m ∷ ms) (b ∷ bs) = nat_eq m b && starts_with ms bs

abbrev pub magic : List ℕ
magic = b'A' ∷ b'B' ∷ b'C' ∷ b'S' ∷ b'N' ∷ b'P' ∷ b'0' ∷ b'1' ∷ []

-- the output of `encode_consensus_snapshot`
unfoldable pub frame : List ℕ → List ℕ → List ℕ
frame broker_snapshot sidecar =
    magic
    ++ (be_bytes 4 snapshot_version
        ++ (be_bytes 8 (length broker_snapshot)
            ++ (be_bytes 8 (length sidecar) ++ (broker_snapshot ++ sidecar))))

abbrev pub invalid : String → IoError
invalid reason = invalid_state_machine_data (literal reason)

abbrev pub fits : List ℕ → String → Result IoError (Unit {0})
fits bytes reason = reject_if (ltb u64_max (length bytes)) (invalid reason)

unfoldable pub encode_consensus_snapshot :
    Serializer → SidecarSerializer → BrokerCheckpoint → Sessions → Result IoError (List ℕ)
unfolding encode_snapshot shows_storage sidecar_of frame invalid_state_machine_data
encode_consensus_snapshot json sidecar_json c sessions = do
  broker_snapshot ←
      map_err (λ e. invalid_state_machine_data (shows_storage e)) (encode_snapshot json c)
  sidecar ←
      map_err (λ e. invalid_state_machine_data (format "{error}" (string e ∷ [])))
        (sidecar_json.to_vec (sidecar_of sessions))
  fits broker_snapshot "Broker snapshot length exceeds u64"
  fits sidecar "command session snapshot length exceeds u64"
  ok (frame broker_snapshot sidecar)

unfoldable pub decode_checkpoint : Serializer → List ℕ → Result IoError BrokerCheckpoint
unfolding decode_snapshot shows_storage from_checkpoint invalid_state_machine_data
decode_checkpoint json bytes = do
  c ← map_err (λ e. invalid_state_machine_data (shows_storage e)) (decode_snapshot json bytes)
  map_err (λ e. invalid_state_machine_data (shows_checkpoint e)) (from_checkpoint c)
  ok c

-- the checks of the header's fields, and the two parts behind it
unfoldable pub parts : ℕ → ℕ → ℕ → List ℕ → Result IoError (List ℕ × List ℕ)
unfolding checked_add invalid_state_machine_data
parts version broker_len sidecar_len bytes = do
  reject_if (ltb (length bytes) header_bytes) (invalid "consensus snapshot header is truncated")
  reject_if (not (nat_eq version snapshot_version)) (
      invalid_state_machine_data
        (format "unsupported consensus snapshot version {version}" (number version ∷ [])))
  broker_end ←
      ok_or (checked_add header_bytes broker_len)
        (invalid "consensus snapshot Broker length overflow")
  expected_end ←
      ok_or (checked_add broker_end sidecar_len)
        (invalid "consensus snapshot sidecar length overflow")
  reject_if (not (nat_eq expected_end (length bytes)))
      (invalid "consensus snapshot length fields do not match payload length")
  ok (slice header_bytes broker_len bytes, drop broker_end bytes)

-- The checkpoint's and the sidecar's bytes of a snapshot that has a header.
unfoldable pub unframe : List ℕ → Result IoError (List ℕ × List ℕ)
unfolding parts
unframe bytes =
    parts (from_be_bytes (slice 8 4 bytes) 0) (from_be_bytes (slice 12 8 bytes) 0)
      (from_be_bytes (slice 20 8 bytes) 0) bytes

abbrev pub decode_framed :
    Serializer → SidecarSerializer → List ℕ → Result IoError (BrokerCheckpoint × Sessions)
decode_framed json sidecar_json bytes = do
  (broker_snapshot, sidecar_bytes) ← unframe bytes
  c ← decode_checkpoint json broker_snapshot
  sidecar ←
      map_err (λ e. invalid_state_machine_data (format "{error}" (string e ∷ [])))
        (sidecar_json.from_slice sidecar_bytes)
  sessions ← sessions_of sidecar
  ok (c, sessions)

-- A snapshot without the magic is one of the checkpoint alone.
unfoldable pub decode_consensus_snapshot :
    Serializer → SidecarSerializer → List ℕ → Result IoError (BrokerCheckpoint × Sessions)
unfolding unframe decode_checkpoint sessions_of invalid_state_machine_data
decode_consensus_snapshot json sidecar_json bytes =
    let legacy = decode_checkpoint json bytes >>= λ c. ok (c, []) in
    if starts_with magic bytes then decode_framed json sidecar_json bytes else legacy
