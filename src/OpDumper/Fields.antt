-- ===== src/OpDumper/Fields.antt =====
-- Masks, and values put together from their bytes.
use cmpe220fall.Base.{ℕ, ◌+◌, ◌*◌, ◌/◌, ◌%◌, ◌^◌, ◌<◌, ◌≡◌, arith, bit_and, bit_or, List, [], ◌∷◌}
use cmpe220fall.OpDumper.Binary.{value_bytes}
use cmpe220fall.Base.Word.{shl64}
use cmpe220fall.Base.Bits.{
  bit_and_mask, bit_and-zero, bit_and-IsDigitwise, bit_or-IsDigitwise, bit_or-zero, zero-bit_or,
  digitwise_split,
}

pub bit_and-bin : (a : ℕ) → bit_and a 0xff ≡ a % 256
bit_and-bin a = bit_and_mask 8 a

pub bit_and-12 : (a : ℕ) → bit_and a 0xfff ≡ a % 4096
bit_and-12 a = bit_and_mask 12 a

pub bit_and-4 : (a : ℕ) → bit_and a 0xf ≡ a % 16
bit_and-4 a = bit_and_mask 4 a

pub bit_and-1 : (a : ℕ) → bit_and a 1 ≡ a % 2
bit_and-1 a = bit_and_mask 1 a

pub bit_and-64 : (a : ℕ) → bit_and a 0xffff_ffff_ffff_ffff ≡ a % 2 ^ 64
bit_and-64 a = bit_and_mask 64 a

pub bit_and-address : (a : ℕ) → a < 2 ^ 64 → bit_and a 0xffff_ffff_ffff_fff8 ≡ a / 8 * 8
bit_and-address a h = ground (
  arith,
  digitwise_split bit_and-IsDigitwise 3 (a / 8) (a % 8) 0x1fff_ffff_ffff_ffff 0,
  bit_and_mask 61 (a / 8),
  bit_and-zero (a % 8),
)

pub or_above : (k acc b : ℕ) → acc < 2 ^ k → bit_or acc (b * 2 ^ k) ≡ acc + b * 2 ^ k
or_above k acc b h =
    ground (arith, digitwise_split bit_or-IsDigitwise k 0 acc b 0, zero-bit_or b, bit_or-zero acc)

join-byte :
    (k acc b : ℕ) → acc < 2 ^ k → b * 2 ^ k < 2 ^ 64 → bit_or acc (shl64 b k) ≡ acc + b * 2 ^ k
join-byte k acc b h fits = ground (arith, or_above k acc b)

-- The byte of `v` at a multiple of 8 bits joins the bytes below it.
module _ (v : ℕ) where
  pub join_0 : bit_or 0 (shl64 (v % 256) 0) ≡ v % 2 ^ 8
  join_0 = omega (arith, join-byte 0 0 (v % 256) (omega arith) (omega arith))

  pub join_1 : bit_or (v % 2 ^ 8) (shl64 (v / 2 ^ 8 % 256) 8) ≡ v % 2 ^ 16
  join_1 = omega (arith, join-byte 8 (v % 2 ^ 8) (v / 2 ^ 8 % 256) (omega arith) (omega arith))

  pub join_2 : bit_or (v % 2 ^ 16) (shl64 (v / 2 ^ 16 % 256) 16) ≡ v % 2 ^ 24
  join_2 = omega (arith, join-byte 16 (v % 2 ^ 16) (v / 2 ^ 16 % 256) (omega arith) (omega arith))

  pub join_3 : bit_or (v % 2 ^ 24) (shl64 (v / 2 ^ 24 % 256) 24) ≡ v % 2 ^ 32
  join_3 = omega (arith, join-byte 24 (v % 2 ^ 24) (v / 2 ^ 24 % 256) (omega arith) (omega arith))

  pub join_4 : bit_or (v % 2 ^ 32) (shl64 (v / 2 ^ 32 % 256) 32) ≡ v % 2 ^ 40
  join_4 = omega (arith, join-byte 32 (v % 2 ^ 32) (v / 2 ^ 32 % 256) (omega arith) (omega arith))

  pub join_5 : bit_or (v % 2 ^ 40) (shl64 (v / 2 ^ 40 % 256) 40) ≡ v % 2 ^ 48
  join_5 = omega (arith, join-byte 40 (v % 2 ^ 40) (v / 2 ^ 40 % 256) (omega arith) (omega arith))

  pub join_6 : bit_or (v % 2 ^ 48) (shl64 (v / 2 ^ 48 % 256) 48) ≡ v % 2 ^ 56
  join_6 = omega (arith, join-byte 48 (v % 2 ^ 48) (v / 2 ^ 48 % 256) (omega arith) (omega arith))

  pub join_7 : bit_or (v % 2 ^ 56) (shl64 (v / 2 ^ 56 % 256) 56) ≡ v % 2 ^ 64
  join_7 = omega (arith, join-byte 56 (v % 2 ^ 56) (v / 2 ^ 56 % 256) (omega arith) (omega arith))

pub mask_byte : (a : ℕ) → bit_and (a % 256) 0xff ≡ a % 256
mask_byte a = omega (arith, bit_and-bin (a % 256))

-- The eight bytes of a word.
abbrev pub word_bytes : ℕ → List ℕ
word_bytes v =
    v % 256
    ∷ v / 2 ^ 8 % 256
    ∷ v / 2 ^ 16 % 256
    ∷ v / 2 ^ 24 % 256
    ∷ v / 2 ^ 32 % 256
    ∷ v / 2 ^ 40 % 256
    ∷ v / 2 ^ 48 % 256
    ∷ v / 2 ^ 56 % 256
    ∷ []

pub join_word :
    (v : ℕ)
    → bit_or
        (bit_or
          (bit_or
            (bit_or
              (bit_or
                (bit_or
                  (bit_or
                    (bit_or 0 (shl64 (bit_and (v % 256) 0xff) 0))
                    (shl64 (bit_and (v / 2 ^ 8 % 256) 0xff) 8))
                  (shl64 (bit_and (v / 2 ^ 16 % 256) 0xff) 16))
                (shl64 (bit_and (v / 2 ^ 24 % 256) 0xff) 24))
              (shl64 (bit_and (v / 2 ^ 32 % 256) 0xff) 32))
            (shl64 (bit_and (v / 2 ^ 40 % 256) 0xff) 40))
          (shl64 (bit_and (v / 2 ^ 48 % 256) 0xff) 48))
        (shl64 (bit_and (v / 2 ^ 56 % 256) 0xff) 56)
      ≡ v % 2 ^ 64
join_word v =
    simp (mask_byte, join_0 v, join_1 v, join_2 v, join_3 v, join_4 v, join_5 v, join_6 v, join_7 v)

pub value_bytes-word_bytes : (v : ℕ) → value_bytes v 0 8 ≡ word_bytes v
unfolding value_bytes
value_bytes-word_bytes v = simp bit_and-bin (ground arith)
