-- ===== src/Opcode/Reached.antt =====
-- The base instructions satisfy what the decoder needs, and what the decoder answers at any time.
use cmpe220fall.Base.{
  Option-cases, ℕ, ◌≡◌, ◌≢◌, ◌⊎◌, inl, inr, refl, ap, Bool, true, false, not, ◌||◌, ◌&&◌, arith,
  List, [], ◌∷◌, bit_and, Option, none, some, if◌then◌else◌, Bool-cases, ◌==◌, ==_iff,
}
use cmpe220fall.Base.Bits.{bit_and-swap, bit_and-zero}
use mathlib.Core.Bool.{false≢true}
use cmpe220fall.Opcode.Table.{Desc, fits, lookup}
use cmpe220fall.Opcode.Grouped.{Agree, AgreeAll, Absent, IsGrouped, IsConsistent, differs-lem}
use cmpe220fall.Opcode.Decoder.{Decoder, sort, decode_insn}
use cmpe220fall.Opcode.Names.{InsnFunc, illegal_instruction, rv32, rv64, c_addi}
use cmpe220fall.Opcode.Base.{base_instructions, base_decoder}
use cmpe220fall.Opcode.Correct.{
  IsDecoder, Answers, Reached, reference, decode_insn-Answers, build_opcode_map-IsDecoder,
  Reached-IsDecoder,
}

and-true : (a b : Bool) → (a && b) ≡ true → (a ≡ true) × (b ≡ true)
and-true true b e = (refl, e)
and-true false b e = absurd (false≢true e)

or-true : (a b : Bool) → (a || b) ≡ true → (a ≡ true) ⊎ (b ≡ true)
or-true true b e = inl refl
or-true false b e = inr e

-- Tests for the hypotheses on a list.
module _ {F : Type 0} where
  unfoldable agree : Desc F → Desc F → Bool
  agree d e =
      e.mask == 0
      || d.match_bits == e.match_bits
      || not (bit_and d.match_bits e.mask == bit_and e.match_bits d.mask)

  unfoldable agree_all : Desc F → List (Desc F) → Bool
  unfolding agree
  agree_all d [] = true
  agree_all d (e ∷ es) = agree d e && agree_all d es

  unfoldable is_consistent : List (Desc F) → Bool
  unfolding agree_all
  is_consistent [] = true
  is_consistent (d ∷ ds) = agree_all d ds && is_consistent ds

  unfoldable absent : ℕ → List (Desc F) → Bool
  absent m [] = true
  absent m (d ∷ ds) = not (m == d.match_bits) && absent m ds

  unfoldable is_grouped : List (Desc F) → Bool
  unfolding absent
  is_grouped [] = true
  is_grouped (d ∷ []) = true
  is_grouped (d ∷ e ∷ ds) =
      (d.match_bits == e.match_bits || absent d.match_bits (e ∷ ds)) && is_grouped (e ∷ ds)

  agree_lem : (d e : Desc F) → agree d e ≡ true → Agree d e
  unfolding agree fits
  agree_lem d e t nz b p q = ground (arith, bit_and-swap b d.mask e.mask)

  agree_all_lem : (d : Desc F) (ds : List (Desc F)) → agree_all d ds ≡ true → AgreeAll d ds
  unfolding agree_all
  agree_all_lem d [] t = tt
  agree_all_lem d (e ∷ es) t =
      let (p, q) = and-true (agree d e) (agree_all d es) t in
      (agree_lem d e p, agree_all_lem d es q)

  is_consistent_lem : (ds : List (Desc F)) → is_consistent ds ≡ true → IsConsistent ds
  unfolding is_consistent
  is_consistent_lem [] t = tt
  is_consistent_lem (d ∷ ds) t =
      let (p, q) = and-true (agree_all d ds) (is_consistent ds) t in
      (agree_all_lem d ds p, is_consistent_lem ds q)

  absent_lem : (m : ℕ) (ds : List (Desc F)) → absent m ds ≡ true → Absent m ds
  unfolding absent
  absent_lem m [] t = tt
  absent_lem m (d ∷ ds) t =
      let (p, q) = and-true (not (m == d.match_bits)) (absent m ds) t in
      (differs-lem d m d.match_bits p, absent_lem m ds q)

  is_grouped_lem : (ds : List (Desc F)) → is_grouped ds ≡ true → IsGrouped ds
  unfolding is_grouped
  is_grouped_lem [] t = tt
  is_grouped_lem (d ∷ []) t = tt
  is_grouped_lem (d ∷ e ∷ ds) t =
      let (p, q) =
        and-true (d.match_bits == e.match_bits || absent d.match_bits (e ∷ ds))
          (is_grouped (e ∷ ds)) t in
      (
        elim (or-true (d.match_bits == e.match_bits) (absent d.match_bits (e ∷ ds)) p) [
          | inl same ↦ inl ((==_iff d.match_bits e.match_bits).0 same)
          | inr apart ↦ inr (absent_lem d.match_bits (e ∷ ds) apart)
        ],
        is_grouped_lem (e ∷ ds) q,
      )

  unfoldable has_catch_all : List (Desc F) → Bool
  has_catch_all [] = false
  has_catch_all (d ∷ ds) = d.mask == 0 && d.match_bits == 0 || has_catch_all ds

  has_catch_all_lem : (b : ℕ) (ds : List (Desc F)) → has_catch_all ds ≡ true → lookup b ds ≢ none
  unfolding has_catch_all lookup fits
  has_catch_all_lem b [] t e = false≢true t
  has_catch_all_lem b (d ∷ ds) t e =
      let rest = has_catch_all_lem b ds in ground (arith, bit_and-zero b)

abbrev pub base_table : List (Desc InsnFunc)
base_table = sort base_instructions

base-IsConsistent : IsConsistent base_table
unfolding is_consistent sort
base-IsConsistent = is_consistent_lem base_table refl

base-IsGrouped : IsGrouped base_table
unfolding is_grouped sort
base-IsGrouped = is_grouped_lem base_table refl

base_decoder-IsDecoder : IsDecoder base_table base_decoder
unfolding base_decoder
base_decoder-IsDecoder =
    build_opcode_map-IsDecoder illegal_instruction base_instructions base-IsGrouped
      base-IsConsistent

-- Whatever words the processor has decoded before, and at whatever widths, `decode_insn` answers a
-- word other than 1 with the first description of the sorted list that fits.
pub decode_insn_lem :
    (s : Decoder InsnFunc) (xlen b : ℕ)
    → Reached base_decoder s
    → Answers base_table xlen b (decode_insn xlen b s)
decode_insn_lem s xlen b r =
    decode_insn-Answers base_table xlen b s
      (Reached-IsDecoder base_table base_decoder s base_decoder-IsDecoder r)

abbrev is_none : {A : Type 0} → Option A → Bool
is_none none = true
is_none (some a) = false

is_none-true : {A : Type 0} (o : Option A) → is_none o ≡ true → o ≡ none
is_none-true none e = refl
is_none-true (some a) e = absurd (false≢true e)

reference-none :
    (xlen b : ℕ) (table : List (Desc InsnFunc))
    → reference xlen table b ≡ none
    → is_none (lookup b table) ≡ true
reference-none xlen b table e = elim (Option-cases (lookup b table)) [
  | inl n ↦ rw n refl
  | inr (d, n) ↦ absurd (false≢true (ap is_none (rw n at e)))
]

-- A decoder so reached always answers: the search never runs past the end of the list.
pub decode_insn-total :
    (s : Decoder InsnFunc) (xlen b : ℕ) → Reached base_decoder s → decode_insn xlen b s ≢ none
unfolding has_catch_all sort
decode_insn-total s xlen b r e =
    let answers : reference xlen base_table b ≡ none = rw e at (decode_insn_lem s xlen b r) in
    has_catch_all_lem b base_table refl
      (is_none-true (lookup b base_table) (reference-none xlen b base_table answers))

-- The empty cache entries name the word 1, which is `c.addi x0, 0`, the compressed no-operation: a
-- processor that has decoded nothing takes it for an illegal instruction, where the list has c_addi.
decode_insn-one :
    (xlen : ℕ)
    → (decode_insn xlen 1 base_decoder ≡ some (illegal_instruction, base_decoder))
      × (reference xlen base_table 1 ≡ some (if xlen == 64 then rv64 c_addi else rv32 c_addi))
unfolding decode_insn base_decoder sort lookup
decode_insn-one xlen =
    (elim (Bool-cases (xlen == 64)) [ inl e ↦ rw e refl | inr e ↦ rw e refl ], refl)
