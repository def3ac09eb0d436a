-- ===== src/OpDumper/Values.antt =====
-- The data of an operation comes back from its bytes: the units that count, and zeros.
use cmpe220fall.Base.{
  ℕ, ◌%◌, ◌^◌, ◌<◌, ◌≤◌, ◌⊎◌, inl, inr, ◌==◌, ==_iff, Bool-cases, true, List, [], ◌∷◌, ◌≡◌, arith,
}
use cmpe220fall.Base.Bits.{bit_and_mask, zero-bit_and}
use cmpe220fall.OpDumper.Outcome.{Unspecified, shift_right, nbitmask, among}
use cmpe220fall.OpDumper.Operation.{Operation, get_val}
use cmpe220fall.OpDumper.Logged.{TakesModulo, IsValue, units}
use cmpe220fall.OpDumper.Tables.{sizes}
use cmpe220fall.OpDumper.Payload.{
  zeros, ComesBack, none_back, byte_back, half_back, single_back, word_back, two_back, four_back,
  eight_back,
}

-- One of the eight sizes.
data IsSize (n : ℕ) : Type 0 where
  size_0 : n ≡ 0 → IsSize n
  size_1 : n ≡ 1 → IsSize n
  size_2 : n ≡ 2 → IsSize n
  size_4 : n ≡ 4 → IsSize n
  size_8 : n ≡ 8 → IsSize n
  size_16 : n ≡ 16 → IsSize n
  size_32 : n ≡ 32 → IsSize n
  size_64 : n ≡ 64 → IsSize n

among-IsSize : (n : ℕ) → among sizes n ≡ true → IsSize n
unfolding among
among-IsSize n h = elim (Bool-cases (0 == n)) [
  | inl e ↦ size_0 (ground (arith, ==_iff 0 n))
  | inr n0 ↦ elim (Bool-cases (1 == n)) [
    | inl e ↦ size_1 (ground (arith, ==_iff 1 n))
    | inr n1 ↦ elim (Bool-cases (2 == n)) [
      | inl e ↦ size_2 (ground (arith, ==_iff 2 n))
      | inr n2 ↦ elim (Bool-cases (4 == n)) [
        | inl e ↦ size_4 (ground (arith, ==_iff 4 n))
        | inr n4 ↦ elim (Bool-cases (8 == n)) [
          | inl e ↦ size_8 (ground (arith, ==_iff 8 n))
          | inr n8 ↦ elim (Bool-cases (16 == n)) [
            | inl e ↦ size_16 (ground (arith, ==_iff 16 n))
            | inr n16 ↦ elim (Bool-cases (32 == n)) [
              | inl e ↦ size_32 (ground (arith, ==_iff 32 n))
              | inr n32 ↦ size_64 (ground (arith, ==_iff 64 n))
            ]
          ]
        ]
      ]
    ]
  ]
]

module _ (u : Unspecified) (o : Operation) (v0 v1 v2 v3 v4 v5 v6 v7 : ℕ)
    (e : o.val ≡ v0 ∷ v1 ∷ v2 ∷ v3 ∷ v4 ∷ v5 ∷ v6 ∷ v7 ∷ []) where
  get_val_none : o.data_size ≡ 0 → get_val u o ≡ zeros
  unfolding get_val nbitmask shift_right
  get_val_none s = rw (s, e, zero-bit_and (nbitmask u 0))

  get_val_byte : o.data_size ≡ 1 → get_val u o ≡ v0 % 2 ^ 8 ∷ 0 ∷ 0 ∷ 0 ∷ 0 ∷ 0 ∷ 0 ∷ 0 ∷ []
  unfolding get_val nbitmask shift_right
  get_val_byte s = rw (s, e, bit_and_mask 8 v0)

  get_val_half : o.data_size ≡ 2 → get_val u o ≡ v0 % 2 ^ 16 ∷ 0 ∷ 0 ∷ 0 ∷ 0 ∷ 0 ∷ 0 ∷ 0 ∷ []
  unfolding get_val nbitmask shift_right
  get_val_half s = rw (s, e, bit_and_mask 16 v0)

  get_val_single : o.data_size ≡ 4 → get_val u o ≡ v0 % 2 ^ 32 ∷ 0 ∷ 0 ∷ 0 ∷ 0 ∷ 0 ∷ 0 ∷ 0 ∷ []
  unfolding get_val nbitmask shift_right
  get_val_single s = rw (s, e, bit_and_mask 32 v0)

  get_val_word : o.data_size ≡ 8 → get_val u o ≡ v0 % 2 ^ 64 ∷ 0 ∷ 0 ∷ 0 ∷ 0 ∷ 0 ∷ 0 ∷ 0 ∷ []
  unfolding get_val nbitmask shift_right
  get_val_word s = rw (s, e, bit_and_mask 64 v0)

  get_val_two : o.data_size ≡ 16 → get_val u o ≡ v0 ∷ v1 ∷ 0 ∷ 0 ∷ 0 ∷ 0 ∷ 0 ∷ 0 ∷ []
  unfolding get_val nbitmask shift_right
  get_val_two s = rw (s, e)

  get_val_four : o.data_size ≡ 32 → get_val u o ≡ v0 ∷ v1 ∷ v2 ∷ v3 ∷ 0 ∷ 0 ∷ 0 ∷ 0 ∷ []
  unfolding get_val nbitmask shift_right
  get_val_four s = rw (s, e)

  get_val_eight : o.data_size ≡ 64 → get_val u o ≡ v0 ∷ v1 ∷ v2 ∷ v3 ∷ v4 ∷ v5 ∷ v6 ∷ v7 ∷ []
  unfolding get_val nbitmask shift_right
  get_val_eight s = rw (s, e)

-- Sizes above 8 bytes need a machine whose wide shifts are known.
abbrev pub Readable : Unspecified → Operation → Type 0
Readable u o = (o.data_size ≤ 8) ⊎ TakesModulo u

modulo : (u : Unspecified) (o : Operation) → 8 < o.data_size → Readable u o → TakesModulo u
modulo u o h (inl p) = absurd (omega arith)
modulo u o h (inr t) = t

pub payload_back :
    (u : Unspecified) (o : Operation) (val : List ℕ)
    → IsValue val
    → o.val ≡ val
    → among sizes o.data_size ≡ true
    → Readable u o
    → ComesBack u (get_val u o) o.data_size
payload_back u o _ (units {v0} {v1} {v2} {v3} {v4} {v5} {v6} {v7} h0 h1 h2 h3 h4 h5 h6 h7) e a r =
    elim (among-IsSize o.data_size a) [
      | size_0 s ↦ rw (get_val_none u o v0 v1 v2 v3 v4 v5 v6 v7 e s, s) (none_back u)
      | size_1 s ↦
          rw (get_val_byte u o v0 v1 v2 v3 v4 v5 v6 v7 e s, s)
            (byte_back u (v0 % 2 ^ 8) (omega arith))
      | size_2 s ↦
          rw (get_val_half u o v0 v1 v2 v3 v4 v5 v6 v7 e s, s)
            (half_back u (v0 % 2 ^ 16) (omega arith))
      | size_4 s ↦
          rw (get_val_single u o v0 v1 v2 v3 v4 v5 v6 v7 e s, s)
            (single_back u (v0 % 2 ^ 32) (omega arith))
      | size_8 s ↦
          rw (get_val_word u o v0 v1 v2 v3 v4 v5 v6 v7 e s, s)
            (word_back u (v0 % 2 ^ 64) (omega arith))
      | size_16 s ↦
          rw (get_val_two u o v0 v1 v2 v3 v4 v5 v6 v7 e s, s)
            (two_back u (modulo u o (omega arith) r) v0 v1 h0 h1)
      | size_32 s ↦
          rw (get_val_four u o v0 v1 v2 v3 v4 v5 v6 v7 e s, s)
            (four_back u (modulo u o (omega arith) r) v0 v1 v2 v3 h0 h1 h2 h3)
      | size_64 s ↦
          rw (get_val_eight u o v0 v1 v2 v3 v4 v5 v6 v7 e s, s)
            (eight_back u (modulo u o (omega arith) r) (units h0 h1 h2 h3 h4 h5 h6 h7))
    ]
