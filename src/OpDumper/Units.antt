-- ===== src/OpDumper/Units.antt =====
-- The data of an operation, a unit of eight bytes at a time: its bytes in a trace, and the units
-- read from them.
use cmpe220fall.Base.{
  ℕ, suc, ◌+◌, ◌*◌, ◌/◌, ◌%◌, ◌^◌, ◌<◌, ◌≤◌, ◌⊎◌, inl, inr, ◌==◌, ltb, Bool-cases, Bool, true,
  false, List, [], ◌∷◌, ◌++◌, ◌≡◌, ◌∙◌, arith, bit_and, bit_or,
}
use cmpe220fall.Base.Word.{shl64}
use cmpe220fall.OpDumper.Outcome.{ok, ◌>>=◌, Unspecified, vector_at, shift_right}
use cmpe220fall.OpDumper.Binary.{data_bytes}
use cmpe220fall.OpDumper.Trace.{File, file_read, read_data}
use cmpe220fall.OpDumper.Logged.{TakesModulo}
use cmpe220fall.OpDumper.Fields.{bit_and-bin, bit_and-64, join_word, word_bytes}

-- A readable file with these bytes left.
abbrev pub left : Bool → List ℕ → List ℕ → File
left open_now out bytes = record {
  is_open = open_now;
  eof = false;
  fail = false;
  written = out;
  rest = bytes;
}

-- A unit starts at the byte `i`.
module _ (open_now : Bool) (out : List ℕ) (i : ℕ) (start : i % 8 ≡ 0) where
  pub first_byte :
      (n unit du b : ℕ) (us bs : List ℕ)
      → read_data i (suc n) unit du us (left open_now out (b ∷ bs))
        ≡ read_data (i + 1) n b (bit_or 0 (shl64 (bit_and b 0xff) 0)) us (left open_now out bs)
  unfolding read_data file_read
  first_byte n unit du b us bs =
      let here : (i % 8 == 0) ≡ true = ground arith in
      let next : ((i + 1) % 8 == 0) ≡ false = ground arith in
      let place : i * 8 % 64 ≡ 0 = omega arith in rw (here, next, place)

  pub middle_byte :
      (k n unit du b : ℕ) (us bs : List ℕ)
      → 0 < k
      → k < 7
      → read_data (i + k) (suc n) unit du us (left open_now out (b ∷ bs))
        ≡ read_data
            (i + (k + 1))
            n
            b
            (bit_or du (shl64 (bit_and b 0xff) (k * 8)))
            us
            (left open_now out bs)
  unfolding read_data file_read
  middle_byte k n unit du b us bs p q =
      let here : ((i + k) % 8 == 0) ≡ false = ground arith in
      let next : ((i + k + 1) % 8 == 0) ≡ false = ground arith in
      let place : (i + k) * 8 % 64 ≡ k * 8 = omega arith in
      let index : i + k + 1 ≡ i + (k + 1) = omega arith in rw (here, next, place, index)

  last_byte :
      (n unit du b : ℕ) (us bs : List ℕ)
      → read_data (i + 7) (suc n) unit du us (left open_now out (b ∷ bs))
        ≡ read_data
            (i + 8)
            n
            b
            (bit_or du (shl64 (bit_and b 0xff) 56))
            (us ++ bit_or du (shl64 (bit_and b 0xff) 56) ∷ [])
            (left open_now out bs)
  unfolding read_data file_read
  last_byte n unit du b us bs =
      let here : ((i + 7) % 8 == 0) ≡ false = ground arith in
      let next : ((i + 7 + 1) % 8 == 0) ≡ true = ground arith in
      let place : (i + 7) * 8 % 64 ≡ 56 = omega arith in
      let index : i + 7 + 1 ≡ i + 8 = omega arith in rw (here, next, place, index)

  pub read_word :
      (n unit du w : ℕ) (us bs : List ℕ)
      → read_data i
          (suc (suc (suc (suc (suc (suc (suc (suc n))))))))
          unit
          du
          us
          (left open_now out (word_bytes w ++ bs))
        ≡ read_data
            (i + 8)
            n
            (w / 2 ^ 56 % 256)
            (w % 2 ^ 64)
            (us ++ w % 2 ^ 64 ∷ [])
            (left open_now out bs)
  read_word n unit du w us bs =
      first_byte _ unit du _ us _
      ∙ middle_byte 1 _ _ _ _ us _ (omega arith) (omega arith)
      ∙ middle_byte 2 _ _ _ _ us _ (omega arith) (omega arith)
      ∙ middle_byte 3 _ _ _ _ us _ (omega arith) (omega arith)
      ∙ middle_byte 4 _ _ _ _ us _ (omega arith) (omega arith)
      ∙ middle_byte 5 _ _ _ _ us _ (omega arith) (omega arith)
      ∙ middle_byte 6 _ _ _ _ us _ (omega arith) (omega arith)
      ∙ last_byte n _ _ _ us bs
      ∙ rw (join_word w)

-- Whether the bytes of the unit at `i` need a shift of 64 or more.
abbrev pub Shifts : Unspecified → ℕ → Type 0
Shifts u i = (i ≡ 0) ⊎ TakesModulo u

module _ (u : Unspecified) (us : List ℕ) (i : ℕ) (start : i % 8 ≡ 0) (m : Shifts u i) where
  shift_of : (w k : ℕ) → k < 8 → shift_right u w ((i + k) * 8) ≡ w / 2 ^ (k * 8)
  unfolding shift_right
  shift_of w k small = elim (Bool-cases (ltb ((i + k) * 8) 64)) [
    | inl within ↦ let place : (i + k) * 8 ≡ k * 8 = ground arith in rw (within, place)
    | inr beyond ↦
        let wide : 64 ≤ (i + k) * 8 = ground arith in
        let place : (i + k) * 8 % 64 ≡ k * 8 = omega arith in
        elim m [
          | inl zero_index ↦ absurd (ground arith)
          | inr t ↦ rw (beyond, t.wide w ((i + k) * 8) wide, place)
        ]
  ]

  byte_of :
      (w k : ℕ)
      → w < 2 ^ 64
      → k < 8
      → bit_and (shift_right u (bit_and w 0xffff_ffff_ffff_ffff) ((i + k) * 8)) 0xff
        ≡ w / 2 ^ (k * 8) % 256
  byte_of w k fits small =
      let whole : bit_and w 0xffff_ffff_ffff_ffff ≡ w = omega (arith, bit_and-64 w) in
      rw (whole, shift_of w k small, bit_and-bin (w / 2 ^ (k * 8)))

  byte_at :
      (k n w : ℕ)
      → k < 8
      → w < 2 ^ 64
      → vector_at us (i / 8) ≡ ok w
      → data_bytes u us (i + k) (suc n)
        ≡ (data_bytes u us (i + (k + 1)) n >>= λ bs. ok (w / 2 ^ (k * 8) % 256 ∷ bs))
  unfolding data_bytes
  byte_at k n w small fits e =
      let unit : (i + k) / 8 ≡ i / 8 = omega arith in
      let index : i + k + 1 ≡ i + (k + 1) = omega arith in
      rw (unit, e, index, byte_of w k fits small)

  -- One of several bytes in a row.
  pub next_byte :
      (k n w : ℕ) (bytes : List ℕ)
      → k < 8
      → w < 2 ^ 64
      → vector_at us (i / 8) ≡ ok w
      → data_bytes u us (i + (k + 1)) n ≡ ok bytes
      → data_bytes u us (i + k) (suc n) ≡ ok (w / 2 ^ (k * 8) % 256 ∷ bytes)
  next_byte k n w bytes small fits e r = byte_at k n w small fits e ∙ rw r

  pub write_word :
      (n w : ℕ) (bytes : List ℕ)
      → w < 2 ^ 64
      → vector_at us (i / 8) ≡ ok w
      → data_bytes u us (i + 8) n ≡ ok bytes
      → data_bytes u us i (suc (suc (suc (suc (suc (suc (suc (suc n))))))))
        ≡ ok (word_bytes w ++ bytes)
  write_word n w bytes fits e r =
      let index : i + 0 ≡ i = omega arith in
      let lowest : w / 2 ^ (0 * 8) % 256 ≡ w % 256 = omega arith in
      let all = next_byte 0 _ w _ (omega arith) fits e (
        next_byte 1 _ w _ (omega arith) fits e (
          next_byte 2 _ w _ (omega arith) fits e (
            next_byte 3 _ w _ (omega arith) fits e (
              next_byte 4 _ w _ (omega arith) fits e (
                next_byte 5 _ w _ (omega arith) fits e (
                  next_byte 6 _ w _ (omega arith) fits e
                    (next_byte 7 n w bytes (omega arith) fits e r))))))) in
      rw (index, lowest) at all
