-- ===== src/Task/Text.antt =====
-- The validation of objectives and results in crates/agent-broker-domain/src/task.rs. A text is
-- the list of its Unicode scalar values; its size is that of its UTF-8 encoding.
use Prim.Native.String.{String}
use herterarchy_broker.Common.{
  ℕ, ◌+◌, ◌*◌, ◌≤◌, ◌≡◌, ◌↔◌, ◌||◌, ◌&&◌, Bool, false, List, [], ◌∷◌, Result, ok, err, ltb, leb,
  nat_eq, if◌then◌else◌, all, arith,
}
use herterarchy_broker.Task.Data.{TaskObjective, TaskResult}

abbrev pub max_objective_bytes : ℕ
max_objective_bytes = 16 * 1024

abbrev pub max_result_bytes : ℕ
max_result_bytes = 64 * 1024

pub data TaskTextError : Type 0 where
  empty : String → TaskTextError
  too_large : String → ℕ → TaskTextError

-- `char::is_whitespace`, the Unicode property White_Space
unfoldable pub is_whitespace : ℕ → Bool
is_whitespace c =
    (leb 0x9 c && leb c 0xD)
    || (nat_eq c 0x20
        || (nat_eq c 0x85
            || (nat_eq c 0xA0
                || (nat_eq c 0x1680
                    || ((leb 0x2000 c && leb c 0x200A)
                        || (nat_eq c 0x2028
                            || (nat_eq c 0x2029
                                || (nat_eq c 0x202F || (nat_eq c 0x205F || nat_eq c 0x3000)))))))))

-- `char::len_utf8`
unfoldable pub char_len : ℕ → ℕ
char_len c = if ltb c 0x80 then 1 else if ltb c 0x800 then 2 else if ltb c 0x1_0000 then 3 else 4

-- `str::len`
unfoldable pub byte_len : List ℕ → ℕ
unfolding char_len
byte_len [] = 0
byte_len (c ∷ cs) = char_len c + byte_len cs

-- A text is empty after trimming when it holds nothing but white space.
unfoldable pub validate_text : List ℕ → String → ℕ → Result TaskTextError (List ℕ)
unfolding byte_len is_whitespace
validate_text value field max_bytes =
    if all is_whitespace value
    then err (empty field)
    else if ltb max_bytes (byte_len value)
    then err (too_large field max_bytes)
    else ok value

-- `TaskObjective::new`
pub new_objective : List ℕ → Result TaskTextError TaskObjective
unfolding validate_text
new_objective value = elim (validate_text value "objective" max_objective_bytes) [
  | ok text ↦ ok (record { text = text })
  | err e ↦ err e
]

-- `TaskResult::new`
pub new_result : List ℕ → Result TaskTextError TaskResult
unfolding validate_text
new_result value = elim (validate_text value "result" max_result_bytes) [
  | ok text ↦ ok (record { text = text })
  | err e ↦ err e
]

-- Objectives and results are accepted exactly when they are not blank and within their limits of
-- 16,384 and 65,536 bytes of UTF-8, and keep their text.
pub text_limits :
    (value : List ℕ) (o : TaskObjective) (r : TaskResult)
    → ((new_objective value ≡ ok o)
        ↔ ((all is_whitespace value ≡ false) × (byte_len value ≤ 16_384) × (o.text ≡ value)))
      × ((new_result value ≡ ok r)
          ↔ ((all is_whitespace value ≡ false) × (byte_len value ≤ 65_536) × (r.text ≡ value)))
unfolding new_objective new_result validate_text
text_limits value o r = (ground arith, ground arith)
