-- ===== src/Storage/Repository/Replay.antt =====
-- What the replay of a journal survives: a record that was not written to its end, and a crash between
-- the writing of a snapshot and the truncation of the journal.
use Prim.Native.String.{String}
use herterarchy_broker.Common.{
  ℕ, ◌≤◌, ◌≡◌, ◌⊎◌, refl, sym, ap, ◌∙◌, inl, inr, Bool, true, false, List, [], ◌∷◌, ◌++◌, length,
  ok, ◌>>=◌, ltb, leb, arith, Bool-cases, Result-cases,
}
use herterarchy_broker.Fencing.{next}
use herterarchy_broker.Machine.Recovery.{BrokerCheckpoint}
use herterarchy_broker.Storage.Journal.{JournalMutation, apply_journal_mutation}
use herterarchy_broker.Storage.Journal.Lookups.{apply_journal_mutation-Applied}
use herterarchy_broker.Storage.Repository.{
  Serializer, max_journal_record_bytes, records, ends_with_newline, check_length, torn,
  decode_journal_mutation, apply_line, replay_records,
}
use herterarchy_broker.Storage.Repository.Records.{IsClosed, IsOpen, records-append, records-open}

-- After a mutation was applied or ignored, it is ignored by every checkpoint that is as new.
settled :
    (m : JournalMutation) (c c' d : BrokerCheckpoint) (applied : Bool)
    → apply_journal_mutation m c ≡ (ok applied, c')
    → c'.revision ≤ d.revision
    → (c.revision ≤ c'.revision) × (apply_journal_mutation m d ≡ (ok false, d))
unfolding apply_journal_mutation
settled m c c' d true h later =
    let (next, bound, term, applied) = apply_journal_mutation-Applied m c c' h in
    let same_revision = applied.1 in
    (omega (arith, next, same_revision), ground (arith, next, same_revision))
settled m c c' d false h later = elim (Bool-cases (leb m.revision c.revision)) [
  | inl stale ↦ let same : c ≡ c' = ground arith in (ground arith, ground arith)
  | inr fresh ↦ absurd (ground arith)
]

settled_line :
    (json : Serializer) (line : List ℕ) (c c' d : BrokerCheckpoint)
    → apply_line json line c ≡ ok c'
    → c'.revision ≤ d.revision
    → (c.revision ≤ c'.revision) × (apply_line json line d ≡ ok d)
unfolding apply_line
settled_line json line c c' d h later = elim (Result-cases (decode_journal_mutation json line)) [
  | inr (e, p) ↦ absurd (ground arith)
  | inl (m, p) ↦ elim (Result-cases (apply_journal_mutation m c).0) [
    | inr (e, q) ↦ absurd (ground arith)
    | inl (applied, q) ↦
        let made : apply_journal_mutation m c ≡ (ok applied, c') = ground arith in
        let (rises, again) = settled m c c' d applied made later in
        (rises, rw (p, apply_line, again) refl)
  ]
]

-- What a replay that succeeds with a whole record has done.
abbrev Went :
    Serializer
    → List ℕ
    → List (List ℕ)
    → BrokerCheckpoint
    → BrokerCheckpoint
    → List (List ℕ)
    → Type 0
Went json line rest c c' kept =
    (check_length line ≡ ok tt)
    × (ends_with_newline line ≡ true)
    × (json.is_value line ≡ true)
    × (c₁ : BrokerCheckpoint) × (more : List (List ℕ)) × (apply_line json line c ≡ ok c₁)
    × (replay_records json rest c₁ ≡ ok (c', more))
    × (kept ≡ line ∷ more)

torn-ok :
    (rest : List (List ℕ)) (reason : String) (c c' : BrokerCheckpoint) (kept : List (List ℕ))
    → torn rest reason c ≡ ok (c', kept)
    → (kept ≡ []) × (c ≡ c')
torn-ok [] reason c c' kept h = (ground arith, ground arith)
torn-ok (r ∷ rs) reason c c' kept h = absurd (ground arith)

replay_records-Went :
    (json : Serializer) (line : List ℕ) (rest : List (List ℕ)) (c c' : BrokerCheckpoint)
    (kept : List (List ℕ))
    → replay_records json (line ∷ rest) c ≡ ok (c', kept)
    → ((kept ≡ []) × (c ≡ c')) ⊎ Went json line rest c c' kept
unfolding replay_records
replay_records-Went json line rest c c' kept h = elim (Result-cases (check_length line)) [
  | inr (e, p) ↦ absurd (ground arith)
  | inl (u, short) ↦ elim (Bool-cases (ends_with_newline line)) [
    | inr unfinished ↦
        inl (torn-ok rest "journal contains a torn record before its tail" c c' kept (ground arith))
    | inl ends ↦ elim (Bool-cases (json.is_value line)) [
      | inr garbled ↦
          inl
            (torn-ok rest "journal contains invalid JSON before its tail" c c' kept (ground arith))
      | inl value ↦ elim (Result-cases (apply_line json line c)) [
        | inr (e, p) ↦ absurd (ground arith)
        | inl (c₁, e) ↦ elim (Result-cases (replay_records json rest c₁)) [
          | inr (x, p) ↦ absurd (ground arith)
          | inl ((d, more), p) ↦
              let same : d ≡ c' = ground arith in
              let all_kept : line ∷ more ≡ kept = ground arith in
              inr (short, ends, value, c₁, more, e, rw (← same) p, sym all_kept)
        ]
      ]
    ]
  ]
]

replay_whole :
    (json : Serializer) (line : List ℕ) (rest : List (List ℕ)) (c c₁ : BrokerCheckpoint)
    → check_length line ≡ ok tt
    → ends_with_newline line ≡ true
    → json.is_value line ≡ true
    → apply_line json line c ≡ ok c₁
    → replay_records json (line ∷ rest) c
      ≡ (replay_records json rest c₁ >>= λ out. ok (out.0, line ∷ out.1))
unfolding replay_records
replay_whole json line rest c c₁ short ends value e = rw (short, ends, value, e) refl

-- A journal whose replay succeeds adds nothing to a checkpoint that is at least as new as the result, as
-- after a crash between the writing of a snapshot and the truncation of the journal.
pub replay_again :
    (json : Serializer) (rs : List (List ℕ)) (c c' : BrokerCheckpoint) (kept : List (List ℕ))
    → replay_records json rs c ≡ ok (c', kept)
    → (c.revision ≤ c'.revision)
      × ((d : BrokerCheckpoint)
          → c'.revision ≤ d.revision
          → replay_records json kept d ≡ ok (d, kept))
unfolding replay_records
replay_again json [] c c' kept h =
    let e : [] ≡ kept = ground arith in (ground arith, λ d later. rw (← e) refl)
replay_again json (line ∷ rest) c c' kept h =
    elim (replay_records-Went json line rest c c' kept h) [
      | inl (none_kept, same) ↦ (ground arith, λ d later. rw (none_kept) refl)
      | inr (short, ends, value, c₁, more, e, r, k) ↦
          let (rises, again) = replay_again json rest c₁ c' more r in
          let (rises', line_again) = settled_line json line c c₁ c₁ e (omega arith) in
          (
            omega (arith, rises, rises'),
            λ d later.
                let stale = (settled_line json line c c₁ d e (omega (arith, rises))).1 in
                rw (k) (
                  replay_whole json line more d d short ends value stale ∙ rw (again d later) refl),
          )
    ]

-- Records that follow a journal which is kept whole are replayed on what it leads to.
pub replay_append :
    (json : Serializer) (rs more : List (List ℕ)) (c c' : BrokerCheckpoint)
    → replay_records json rs c ≡ ok (c', rs)
    → replay_records json (rs ++ more) c
      ≡ (replay_records json more c' >>= λ out. ok (out.0, rs ++ out.1))
unfolding replay_records
replay_append json [] more c c' h =
    let same : c ≡ c' = ground arith in
    elim (Result-cases (replay_records json more c')) [
      | inl (out, e) ↦ rw (same, e) refl
      | inr (x, e) ↦ rw (same, e) refl
    ]
replay_append json (line ∷ rest) more c c' h =
    elim (replay_records-Went json line rest c c' (line ∷ rest) h) [
      | inl (none_kept, same) ↦ absurd (ground arith)
      | inr (short, ends, value, c₁, kept, e, r, k) ↦
          let all_kept : rest ≡ kept = ground arith in
          replay_whole json line (rest ++ more) c c₁ short ends value e
          ∙ (rw (replay_append json rest more c₁ c' (r ∙ ap (λ k. ok (c', k)) (sym all_kept)))
              elim (Result-cases (replay_records json more c')) [
                | inl (out, q) ↦ rw (q) refl
                | inr (x, q) ↦ rw (q) refl
              ])
    ]

IsOpen-ends : (b : ℕ) (bs : List ℕ) → IsOpen (b ∷ bs) → ends_with_newline (b ∷ bs) ≡ false
unfolding ends_with_newline
IsOpen-ends b [] (h, k) = h
IsOpen-ends b (c ∷ bs) (h, k) = IsOpen-ends c bs k

append-nil : (rs : List (List ℕ)) → rs ++ [] ≡ rs
append-nil [] = refl
append-nil (r ∷ rs) = ap (λ more. r ∷ more) (append-nil rs)

replay_unfinished :
    (json : Serializer) (b : ℕ) (bs : List ℕ) (c : BrokerCheckpoint)
    → IsOpen (b ∷ bs)
    → length (b ∷ bs) ≤ 134_217_728
    → replay_records json ((b ∷ bs) ∷ []) c ≡ ok (c, [])
unfolding replay_records check_length
replay_unfinished json b bs c h short =
    let fits : ltb max_journal_record_bytes (length (b ∷ bs)) ≡ false = ground arith in
    rw (fits, IsOpen-ends b bs h) refl

-- A journal that is kept whole, followed by a record that was not written to its end, is replayed to the
-- same checkpoint, and the unfinished record alone is cut off.
pub torn_tail :
    (json : Serializer) (bytes : List ℕ) (b : ℕ) (tail : List ℕ) (c c' : BrokerCheckpoint)
    → IsClosed bytes
    → IsOpen (b ∷ tail)
    → length (b ∷ tail) ≤ 134_217_728
    → replay_records json (records bytes) c ≡ ok (c', records bytes)
    → replay_records json (records (bytes ++ (b ∷ tail))) c ≡ ok (c', records bytes)
torn_tail json bytes b tail c c' closed unfinished short h =
    let split =
      records-append bytes (b ∷ tail) closed
      ∙ ap (λ rs. records bytes ++ rs) (records-open b tail unfinished) in
    rw
      (
        split,
        replay_append json (records bytes) ((b ∷ tail) ∷ []) c c' h,
        replay_unfinished json b tail c' unfinished short,
      )
      (ap (λ rs. ok (c', rs)) (append-nil (records bytes)))
