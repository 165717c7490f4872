-- ===== src/Storage/Repository/Records.antt =====
-- The records of a journal: what is written is what is read.
use herterarchy_broker.Common.{
  ℕ, ◌≡◌, refl, ap, ◌∙◌, inl, inr, true, false, List, [], ◌∷◌, ◌++◌, nat_eq, arith, Bool-cases,
}
use herterarchy_broker.Storage.Repository.{newline, grow, records, ends_with_newline}

-- the bytes of records
abbrev pub joined : List (List ℕ) → List ℕ
joined [] = []
joined (r ∷ rs) = r ++ joined rs

-- The bytes end with a record that is complete, or there are none.
abbrev pub IsClosed : List ℕ → Type 0
IsClosed [] = Unit {0}
IsClosed (b ∷ bs) = ends_with_newline (b ∷ bs) ≡ true

-- no newline among the bytes
abbrev pub IsOpen : List ℕ → Type 0
IsOpen [] = Unit {0}
IsOpen (b ∷ bs) = (nat_eq b newline ≡ false) × IsOpen bs

joined-grow : (b : ℕ) (rs : List (List ℕ)) → joined (grow b rs) ≡ b ∷ joined rs
joined-grow b [] = refl
joined-grow b (r ∷ rs) = refl

-- No byte is lost or added.
pub joined-records : (bs : List ℕ) → joined (records bs) ≡ bs
unfolding records
joined-records [] = refl
joined-records (b ∷ bs) = ground (arith, joined-records bs, joined-grow b (records bs))

IsClosed-rest : (b : ℕ) (bs : List ℕ) → IsClosed (b ∷ bs) → IsClosed bs
unfolding ends_with_newline
IsClosed-rest b [] h = tt
IsClosed-rest b (c ∷ bs) h = h

grow-append :
    (b c : ℕ) (bs : List ℕ) (more : List (List ℕ))
    → grow b (records (c ∷ bs) ++ more) ≡ grow b (records (c ∷ bs)) ++ more
unfolding records
grow-append b c bs more = elim (Bool-cases (nat_eq c newline)) [
  | inl e ↦ rw (e, records) refl
  | inr e ↦ rw (e, records) (grow_twice (records bs))
]
  where
    grow_twice : (rs : List (List ℕ)) → grow b (grow c rs ++ more) ≡ grow b (grow c rs) ++ more
    grow_twice [] = refl
    grow_twice (r ∷ rs) = refl

-- The records of complete bytes stay when more bytes are appended.
pub records-append :
    (bs more : List ℕ) → IsClosed bs → records (bs ++ more) ≡ records bs ++ records more
unfolding records ends_with_newline
records-append [] more h = refl
records-append (b ∷ []) more h = ground arith
records-append (b ∷ c ∷ bs) more h = elim (Bool-cases (nat_eq b newline)) [
  | inl e ↦ rw (e, records) (ap (λ rs. (b ∷ []) ∷ rs) (records-append (c ∷ bs) more h))
  | inr e ↦
      rw (e, records)
        (ap (grow b) (records-append (c ∷ bs) more h) ∙ grow-append b c bs (records more))
]

pub records-open : (b : ℕ) (bs : List ℕ) → IsOpen (b ∷ bs) → records (b ∷ bs) ≡ (b ∷ bs) ∷ []
unfolding records
records-open b [] h = ground arith
records-open b (c ∷ bs) (x, y) = ground (arith, records-open c bs y)

-- A text without a newline, and a newline, are one record.
pub records-line :
    (bs : List ℕ) → IsOpen bs → records (bs ++ (newline ∷ [])) ≡ (bs ++ (newline ∷ [])) ∷ []
unfolding records
records-line [] h = refl
records-line (b ∷ bs) (x, y) = ground (arith, records-line bs y)
