-- ===== src/OpDumper/Outcome.antt =====
-- How a function of the dumper ends: with a value, with `exit(code)` of op_dumper/errorcode.hpp, or
-- with the exception of `at` that nothing catches. And what the language leaves open.
use cmpe220fall.Base.{
  ℕ, zero, suc, Bool, true, false, List, [], ◌∷◌, ◌-◌, ◌==◌, ltb, ◌≡◌, refl, if◌then◌else◌,
}
use cmpe220fall.Base.Word.{shr64}

pub data Outcome (A : Type 0) : Type 0 where
  exited : ℕ → Outcome A
  out_of_range : Outcome A
  ok : A → Outcome A

infixl 5 ◌>>=◌ ◌>>◌
abbrev pub ◌>>=◌ : {A B : Type 0} → Outcome A → (A → Outcome B) → Outcome B
exited code >>= next = exited code
out_of_range >>= next = out_of_range
ok value >>= next = next value

abbrev pub ◌>>◌ : {A : Type 0} → Outcome (Unit {0}) → Outcome A → Outcome A
check >> rest = check >>= λ u. rest

-- Where a chain of calls ends well, the first call did, and the others did on its result.
pub bind_ok :
    {A B : Type 0} (first : Outcome A) (next : A → Outcome B) {result : B}
    → first >>= next ≡ ok result
    → (value : A) × (first ≡ ok value) × (next value ≡ ok result)
bind_ok (exited code) next e = cc
bind_ok out_of_range next e = cc
bind_ok (ok value) next e = (value, refl, e)

abbrev pub error_dumper_mode_invalid : ℕ
error_dumper_mode_invalid = 201

abbrev pub error_dumper_file_invalid : ℕ
error_dumper_file_invalid = 202

abbrev pub error_op_type_invalid : ℕ
error_op_type_invalid = 203

-- What the C++ standard leaves open: a shift of a 64-bit value by 64 or more, and the content of a
-- byte that was not initialised.
pub record Unspecified : Type 0 where
  pub wide_shift : ℕ → ℕ → ℕ
  pub byte : ℕ

-- `v >> k` on 64 bits, for any `k`.
unfoldable pub shift_right : Unspecified → ℕ → ℕ → ℕ
shift_right u v k = if ltb k 64 then shr64 v k else u.wide_shift v k

-- `NBITMASK(n)`.
unfoldable pub nbitmask : Unspecified → ℕ → ℕ
unfolding shift_right
nbitmask u n = shift_right u 0xffff_ffff_ffff_ffff (64 - n)

-- `map::at` and `vector::at`.
unfoldable pub map_at : List (ℕ × ℕ) → ℕ → Outcome ℕ
map_at [] k = out_of_range
map_at ((j, v) ∷ m) k = if j == k then ok v else map_at m k

unfoldable pub vector_at : List ℕ → ℕ → Outcome ℕ
vector_at [] i = out_of_range
vector_at (x ∷ xs) zero = ok x
vector_at (x ∷ xs) (suc i) = vector_at xs i

-- `switch` labels.
unfoldable pub among : List ℕ → ℕ → Bool
among [] n = false
among (x ∷ xs) n = if x == n then true else among xs n
