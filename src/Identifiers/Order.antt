-- ===== src/Identifiers/Order.antt =====
-- `Eq` and `Ord` of a string, bytewise, and of the identifiers that wrap one.
use herterarchy_broker.Common.{
  ℕ, ◌≡◌, refl, ◌↔◌, Bool, true, false, ◌&&◌, ◌||◌, List, [], ◌∷◌, ltb, nat_eq, arith,
}
use herterarchy_broker.Common.Keys.{Key}
use herterarchy_broker.Identifiers.{Identifier}

unfoldable pub bytes_eq : List ℕ → List ℕ → Bool
bytes_eq [] [] = true
bytes_eq [] (b ∷ bs) = false
bytes_eq (a ∷ as') [] = false
bytes_eq (a ∷ as') (b ∷ bs) = nat_eq a b && bytes_eq as' bs

-- A proper prefix comes first.
unfoldable pub bytes_lt : List ℕ → List ℕ → Bool
bytes_lt [] [] = false
bytes_lt [] (b ∷ bs) = true
bytes_lt (a ∷ as') [] = false
bytes_lt (a ∷ as') (b ∷ bs) = ltb a b || (nat_eq a b && bytes_lt as' bs)

pub bytes_eq_iff : (a b : List ℕ) → (bytes_eq a b ≡ true) ↔ (a ≡ b)
unfolding bytes_eq
bytes_eq_iff [] [] = ground arith
bytes_eq_iff [] (b ∷ bs) = ground arith
bytes_eq_iff (a ∷ as') [] = ground arith
bytes_eq_iff (a ∷ as') (b ∷ bs) = ground (arith, bytes_eq_iff as' bs)

pub bytes_lt_irrefl : (a : List ℕ) → bytes_lt a a ≡ false
unfolding bytes_lt
bytes_lt_irrefl [] = refl
bytes_lt_irrefl (a ∷ as') = ground (arith, bytes_lt_irrefl as')

pub bytes_lt_trans :
    (a b c : List ℕ) → bytes_lt a b ≡ true → bytes_lt b c ≡ true → bytes_lt a c ≡ true
unfolding bytes_lt
bytes_lt_trans [] [] c h k = ground arith
bytes_lt_trans [] (b ∷ bs) [] h k = ground arith
bytes_lt_trans [] (b ∷ bs) (c ∷ cs) h k = refl
bytes_lt_trans (a ∷ as') [] c h k = ground arith
bytes_lt_trans (a ∷ as') (b ∷ bs) [] h k = ground arith
bytes_lt_trans (a ∷ as') (b ∷ bs) (c ∷ cs) h k = ground (arith, bytes_lt_trans as' bs cs)

pub bytes_lt_total :
    (a b : List ℕ) → bytes_eq a b ≡ false → bytes_lt a b ≡ false → bytes_lt b a ≡ true
unfolding bytes_eq bytes_lt
bytes_lt_total [] [] h k = ground arith
bytes_lt_total [] (b ∷ bs) h k = ground arith
bytes_lt_total (a ∷ as') [] h k = refl
bytes_lt_total (a ∷ as') (b ∷ bs) h k = ground (arith, bytes_lt_total as' bs)

instance abbrev pub bytes_key : Key (List ℕ)
bytes_key = record {
  beq = bytes_eq;
  lt = bytes_lt;
  beq_iff = bytes_eq_iff;
  lt_irrefl = bytes_lt_irrefl;
  lt_trans = bytes_lt_trans;
  lt_total = bytes_lt_total;
}

unfoldable pub id_eq : Identifier → Identifier → Bool
unfolding bytes_eq
id_eq a b = bytes_eq a.bytes b.bytes

unfoldable pub id_lt : Identifier → Identifier → Bool
unfolding bytes_lt
id_lt a b = bytes_lt a.bytes b.bytes

pub id_eq_iff : (a b : Identifier) → (id_eq a b ≡ true) ↔ (a ≡ b)
unfolding id_eq
id_eq_iff a b = ground (arith, bytes_eq_iff a.bytes b.bytes)

pub id_lt_irrefl : (a : Identifier) → id_lt a a ≡ false
unfolding id_lt
id_lt_irrefl a = bytes_lt_irrefl a.bytes

pub id_lt_trans : (a b c : Identifier) → id_lt a b ≡ true → id_lt b c ≡ true → id_lt a c ≡ true
unfolding id_lt
id_lt_trans a b c h k = bytes_lt_trans a.bytes b.bytes c.bytes h k

pub id_lt_total : (a b : Identifier) → id_eq a b ≡ false → id_lt a b ≡ false → id_lt b a ≡ true
unfolding id_eq id_lt
id_lt_total a b h k = bytes_lt_total a.bytes b.bytes h k

instance abbrev pub id_key : Key Identifier
id_key = record {
  beq = id_eq;
  lt = id_lt;
  beq_iff = id_eq_iff;
  lt_irrefl = id_lt_irrefl;
  lt_trans = id_lt_trans;
  lt_total = id_lt_total;
}
