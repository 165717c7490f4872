-- ===== src/Consensus/Snapshots/RoundTrip.antt =====
-- The snapshot of a replica is read back as it was written.
use herterarchy_broker.Common.{
  ℕ, ◌+◌, ◌*◌, ◌/◌, ◌%◌, ◌≤◌, ◌≡◌, refl, sym, ap, subst, ◌∙◌, inl, inr, zero, suc, List, [], ◌∷◌,
  ◌++◌, length, take, Every, Result, ok, ltb, arith, Result-cases, false,
}
use herterarchy_broker.Common.Maps.{IsOrdered}
use herterarchy_broker.Fencing.{u64_max, checked_add}
use herterarchy_broker.Identifiers.Order.{id_key}
use herterarchy_broker.Machine.State.{BrokerStateMachine}
use herterarchy_broker.Machine.Recovery.{BrokerCheckpoint, from_checkpoint}
use herterarchy_broker.Storage.Snapshot.{checkpoint_to_wire}
use herterarchy_broker.Storage.RoundTrip.{IsCheckpoint, snapshot_from_wire-checkpoint_to_wire}
use herterarchy_broker.Storage.Repository.{Serializer, encode_snapshot, decode_snapshot}
use herterarchy_broker.Consensus.Sidecar.{Sessions, sidecar_of}
use herterarchy_broker.Consensus.Sidecar.RoundTrip.{IsSession, sessions_of-sidecar_of}
use herterarchy_broker.Consensus.Snapshots.{
  SidecarSerializer, be_bytes, from_be_bytes, drop, magic, frame, parts, unframe,
  encode_consensus_snapshot, decode_checkpoint, decode_framed, decode_consensus_snapshot,
}

-- what is left of a number above so many bytes
abbrev shifted : ℕ → ℕ → ℕ
shifted zero value = value
shifted (suc n) value = shifted n (value / 256)

from_be_bytes-last :
    (bs : List ℕ) (b value : ℕ)
    → from_be_bytes (bs ++ (b ∷ [])) value ≡ from_be_bytes bs value * 256 + b
from_be_bytes-last [] b value = refl
from_be_bytes-last (c ∷ bs) b value = from_be_bytes-last bs b (value * 256 + c)

from_be_bytes-be_bytes :
    (n value : ℕ) → shifted n value ≡ 0 → from_be_bytes (be_bytes n value) 0 ≡ value
from_be_bytes-be_bytes zero value h = sym h
from_be_bytes-be_bytes (suc n) value h = omega (
  arith,
  from_be_bytes-last (be_bytes n (value / 256)) (value % 256) 0,
  from_be_bytes-be_bytes n (value / 256) h,
)

u64_bytes : (value : ℕ) → value ≤ u64_max → from_be_bytes (be_bytes 8 value) 0 ≡ value
u64_bytes value h = from_be_bytes-be_bytes 8 value (omega arith)

take-length : (xs ys : List ℕ) → take (length xs) (xs ++ ys) ≡ xs
take-length [] ys = refl
take-length (x ∷ xs) ys = ap (λ t. x ∷ t) (take-length xs ys)

drop-length : (xs ys : List ℕ) → drop (length xs) (xs ++ ys) ≡ ys
drop-length [] ys = refl
drop-length (x ∷ xs) ys = drop-length xs ys

length-append : (xs ys : List ℕ) → length (xs ++ ys) ≡ length xs + length ys
length-append [] ys = omega arith
length-append (x ∷ xs) ys = omega (arith, length-append xs ys)

drop-append : (xs ys : List ℕ) (n m : ℕ) → n ≡ length xs + m → drop n (xs ++ ys) ≡ drop m ys
drop-append [] ys n m h = let e : n ≡ m = omega (arith, h) in ap (λ k. drop k ys) e
drop-append (x ∷ xs) ys zero m h = absurd (omega arith)
drop-append (x ∷ xs) ys (suc n) m h = drop-append xs ys n m (omega arith)

-- the parts behind any header of 28 bytes
parts-header :
    (header b s : List ℕ)
    → length header ≡ 28
    → 28 + length b + length s ≤ u64_max
    → parts 1 (length b) (length s) (header ++ (b ++ s)) ≡ ok (b, s)
unfolding parts checked_add
parts-header header b s sized h =
    let whole = length-append header (b ++ s) in
    let payload = length-append b s in
    let long : ltb (length (header ++ (b ++ s))) 28 ≡ false = ground (arith, whole, payload) in
    let first = drop-append header (b ++ s) 28 0 (omega arith) ∙ refl in
    let second = drop-append header (b ++ s) (28 + length b) (length b) (omega arith) in
    let taken : take (length b) (drop 28 (header ++ (b ++ s))) ≡ b =
      ap (take (length b)) first ∙ take-length b s in
    let dropped : drop (28 + length b) (header ++ (b ++ s)) ≡ s = second ∙ drop-length b s in
    ground (arith, whole, payload, taken, dropped)

-- The two parts of a snapshot are found where they were put.
unframe-frame :
    (b s : List ℕ) → 28 + length b + length s ≤ u64_max → unframe (frame b s) ≡ ok (b, s)
unfolding unframe frame
unframe-frame b s h =
    let header = magic ++ (be_bytes 4 1 ++ (be_bytes 8 (length b) ++ be_bytes 8 (length s))) in
    ap (λ n. parts 1 n (from_be_bytes (be_bytes 8 (length s)) 0) (frame b s))
      (u64_bytes (length b) (omega arith))
    ∙ (ap (λ n. parts 1 (length b) n (frame b s)) (u64_bytes (length s) (omega arith))
        ∙ parts-header header b s refl h)

-- What the serializer has written it reads again.
abbrev pub Reads {ℓ} :
    {W : Type ℓ} → (W → Result (List ℕ) (List ℕ)) → (List ℕ → Result (List ℕ) W) → Type ℓ
Reads to_vec from_slice =
    (wire : _) (bytes : List ℕ) → to_vec wire ≡ ok bytes → from_slice bytes ≡ ok wire

decode-encode_checkpoint :
    (json : Serializer) (c : BrokerCheckpoint) (m : BrokerStateMachine) (bytes : List ℕ)
    → Reads json.snapshot_to_vec json.snapshot_from_slice
    → IsCheckpoint c
    → from_checkpoint c ≡ ok m
    → encode_snapshot json c ≡ ok bytes
    → decode_checkpoint json bytes ≡ ok c
unfolding encode_snapshot decode_snapshot decode_checkpoint
decode-encode_checkpoint json c m bytes reads sound restored h =
    elim (Result-cases (json.snapshot_to_vec (checkpoint_to_wire c))) [
      | inr (e, p) ↦ absurd (ground arith)
      | inl (written, p) ↦
          let same : written ≡ bytes = ground arith in
          let back = reads (checkpoint_to_wire c) bytes (p ∙ ap ok same) in
          rw (back, snapshot_from_wire-checkpoint_to_wire c m sound restored, restored) refl
    ]

length-frame : (b s : List ℕ) → length (frame b s) ≡ 28 + length b + length s
unfolding frame
length-frame b s = omega (arith, length-append b s)

decode-frame :
    (json : Serializer) (sidecar_json : SidecarSerializer) (b s : List ℕ)
    → decode_consensus_snapshot json sidecar_json (frame b s)
      ≡ decode_framed json sidecar_json (frame b s)
unfolding decode_consensus_snapshot frame
decode-frame json sidecar_json b s = refl

-- The snapshot of a sound checkpoint, from which a machine can be restored, and of command sessions as the
-- replica stores them is read back as both of them, if the serializers read what they have written and its
-- length is a u64.
pub decode-encode_consensus_snapshot :
    (json : Serializer) (sidecar_json : SidecarSerializer) (c : BrokerCheckpoint)
    (m : BrokerStateMachine) (sessions : Sessions) (bytes : List ℕ)
    → Reads json.snapshot_to_vec json.snapshot_from_slice
    → Reads sidecar_json.to_vec sidecar_json.from_slice
    → IsCheckpoint c
    → from_checkpoint c ≡ ok m
    → IsOrdered sessions × (length sessions ≤ 4_096) × Every IsSession sessions
    → encode_consensus_snapshot json sidecar_json c sessions ≡ ok bytes
    → length bytes ≤ u64_max
    → decode_consensus_snapshot json sidecar_json bytes ≡ ok (c, sessions)
unfolding encode_consensus_snapshot decode_consensus_snapshot
decode-encode_consensus_snapshot json sidecar_json c m sessions bytes reads sidecar_reads sound
      restored (ordered, few, stored) h short =
    elim (Result-cases (encode_snapshot json c)) [
      | inr (e, p) ↦ absurd (ground arith)
      | inl (b, p) ↦ elim (Result-cases (sidecar_json.to_vec (sidecar_of sessions))) [
        | inr (e, q) ↦ absurd (ground arith)
        | inl (s, q) ↦
            let same : frame b s ≡ bytes = ground arith in
            let sized : 28 + length b + length s ≤ u64_max =
              subst (λ n. n ≤ u64_max) (ap length (sym same) ∙ length-frame b s) short in
            let checkpoint = decode-encode_checkpoint json c m b reads sound restored p in
            let back = sidecar_reads (sidecar_of sessions) s q in
            ap (decode_consensus_snapshot json sidecar_json) (sym same)
            ∙ (decode-frame json sidecar_json b s
                ∙ rw
                    (
                      unframe-frame b s sized,
                      checkpoint,
                      back,
                      sessions_of-sidecar_of sessions ordered few stored,
                    )
                    refl)
      ]
    ]
