-- ===== src/OpDumper/Payload.antt =====
-- Data of each size comes back from its bytes: the units that count, and zeros.
use cmpe220fall.Base.{
  ℕ, suc, zero, ◌+◌, ◌*◌, ◌/◌, ◌%◌, ◌^◌, ◌<◌, inl, inr, ltb, Bool, true, false, List, [], ◌∷◌, ◌++◌,
  ◌≡◌, refl, ◌∙◌, arith, length,
}
use mathlib.Core.List.{append-nil, append_assoc}
use cmpe220fall.OpDumper.Outcome.{ok, Unspecified, vector_at}
use cmpe220fall.OpDumper.Operation.{copy_values}
use cmpe220fall.OpDumper.Binary.{data_bytes}
use cmpe220fall.OpDumper.Trace.{File, read_data, read_units}
use cmpe220fall.OpDumper.Logged.{TakesModulo, IsValue, units}
use cmpe220fall.OpDumper.Fields.{mask_byte, word_bytes, join_0, join_1, join_2, join_3}
use cmpe220fall.OpDumper.Units.{left, read_word, write_word, next_byte, first_byte, middle_byte}

abbrev pub zeros : List ℕ
zeros = 0 ∷ 0 ∷ 0 ∷ 0 ∷ 0 ∷ 0 ∷ 0 ∷ 0 ∷ []

-- The `size` bytes of the units `us`, and what is read from them before any rest.
pub record ComesBack (u : Unspecified) (us : List ℕ) (size : ℕ) : Type 0 where
  pub bytes : List ℕ
  pub write : data_bytes u us 0 size ≡ ok bytes
  pub read :
      (open_now : Bool) (out : List ℕ) (last : ℕ) (more : List ℕ)
      → (values : List ℕ) × (read_units size last (left open_now out (bytes ++ more))
          ≡ (values, left open_now out more))
        × (copy_values values zeros ≡ us)

pub none_back : (u : Unspecified) → ComesBack u zeros 0
unfolding data_bytes read_units read_data copy_values
none_back u = record { bytes = []; write = refl; read = λ open_now out last more. ([], refl, refl) }

-- Whole units: their number of bytes, and the bytes.
abbrev octets : ℕ → ℕ
octets zero = 0
octets (suc n) = suc (suc (suc (suc (suc (suc (suc (suc (octets n))))))))

abbrev all_bytes : List ℕ → List ℕ
all_bytes [] = []
all_bytes (w ∷ ws) = word_bytes w ++ all_bytes ws

octets-mul : (n : ℕ) → octets n ≡ n * 8
octets-mul zero = refl
octets-mul (suc n) = omega (arith, octets-mul n)

-- The units `ws` stand in `us` from the byte `i` on.
abbrev Holds : List ℕ → ℕ → List ℕ → Type 0
Holds us i [] = Unit
Holds us i (w ∷ ws) = (vector_at us (i / 8) ≡ ok w) × (w < 2 ^ 64) × Holds us (i + 8) ws

write_words :
    (u : Unspecified) (t : TakesModulo u) (us : List ℕ) (i : ℕ) (ws : List ℕ)
    → i % 8 ≡ 0
    → Holds us i ws
    → data_bytes u us i (octets (length ws)) ≡ ok (all_bytes ws)
unfolding data_bytes
write_words u t us i [] start h = refl
write_words u t us i (w ∷ ws) start h =
    write_word u us i start (inr t) (octets (length ws)) w (all_bytes ws) h.1 h.0
      (write_words u t us (i + 8) ws (omega arith) h.2)

read_end : (i unit du : ℕ) (us : List ℕ) (f : File) → read_data i 0 unit du us f ≡ (us, du, f)
unfolding read_data
read_end i unit du us f = refl

octets-length : (ws : List ℕ) → ltb (length ws * 8) (octets (length ws)) ≡ false
octets-length ws = ground (arith, octets-mul (length ws))

module _ (open_now : Bool) (out more : List ℕ) where
  read_words :
      (i unit du : ℕ) (us ws vs : List ℕ)
      → i % 8 ≡ 0
      → Holds vs i ws
      → (after : ℕ) × (read_data i
            (octets (length ws))
            unit
            du
            us
            (left open_now out (all_bytes ws ++ more))
          ≡ (us ++ ws, after, left open_now out more))
  read_words i unit du us [] vs start h = (du, rw append-nil (read_end i unit du us _))
  read_words i unit du us (w ∷ ws) vs start h =
      let whole : w % 2 ^ 64 ≡ w = omega (arith, h.1) in
      let r = read_words (i + 8) (w / 2 ^ 56 % 256) w (us ++ w ∷ []) ws vs (omega arith) h.2 in
      let first_unit =
        read_word open_now out i start (octets (length ws)) unit du w us (all_bytes ws ++ more) in
      (r.0, rw whole at first_unit ∙ r.1 ∙ rw append_assoc)

  read_units_words :
      (last : ℕ) (ws vs : List ℕ)
      → Holds vs 0 ws
      → read_units (octets (length ws)) last (left open_now out (all_bytes ws ++ more))
        ≡ (ws, left open_now out more)
  unfolding read_units
  read_units_words last ws vs h =
      let r = read_words 0 last 0 [] ws vs refl h in rw (r.1, octets-length ws)

module _ (u : Unspecified) where
  words_back :
      (us ws : List ℕ)
      → Holds us 0 ws
      → data_bytes u us 0 (octets (length ws)) ≡ ok (all_bytes ws)
      → copy_values ws zeros ≡ us
      → ComesBack u us (octets (length ws))
  words_back us ws h e c = record {
    bytes = all_bytes ws;
    write = e;
    read = λ open_now out last more. (ws, read_units_words open_now out more last ws us h, c);
  }

  pub word_back : (w : ℕ) → w < 2 ^ 64 → ComesBack u (w ∷ 0 ∷ 0 ∷ 0 ∷ 0 ∷ 0 ∷ 0 ∷ 0 ∷ []) 8
  unfolding copy_values vector_at data_bytes
  word_back w h =
      let us : List ℕ = w ∷ 0 ∷ 0 ∷ 0 ∷ 0 ∷ 0 ∷ 0 ∷ 0 ∷ [] in
      words_back us (w ∷ []) (refl, h, tt) (write_word u us 0 refl (inl refl) 0 w [] h refl refl)
        refl

  module _ (t : TakesModulo u) where
    many_back :
        (us ws : List ℕ)
        → Holds us 0 ws
        → copy_values ws zeros ≡ us
        → ComesBack u us (octets (length ws))
    many_back us ws h c = words_back us ws h (write_words u t us 0 ws refl h) c

    pub two_back :
        (a b : ℕ) → a < 2 ^ 64 → b < 2 ^ 64 → ComesBack u (a ∷ b ∷ 0 ∷ 0 ∷ 0 ∷ 0 ∷ 0 ∷ 0 ∷ []) 16
    unfolding copy_values vector_at
    two_back a b p q = many_back _ (a ∷ b ∷ []) (refl, p, (refl, q, tt)) refl

    pub four_back :
        (a b c d : ℕ)
        → a < 2 ^ 64
        → b < 2 ^ 64
        → c < 2 ^ 64
        → d < 2 ^ 64
        → ComesBack u (a ∷ b ∷ c ∷ d ∷ 0 ∷ 0 ∷ 0 ∷ 0 ∷ []) 32
    unfolding copy_values vector_at
    four_back a b c d p q r s =
        many_back _ (a ∷ b ∷ c ∷ d ∷ []) (refl, p, (refl, q, (refl, r, (refl, s, tt)))) refl

    pub eight_back : {us : List ℕ} → IsValue us → ComesBack u us 64
    unfolding copy_values vector_at
    eight_back (units {v0} {v1} {v2} {v3} {v4} {v5} {v6} {v7} h0 h1 h2 h3 h4 h5 h6 h7) =
        many_back _ (v0 ∷ v1 ∷ v2 ∷ v3 ∷ v4 ∷ v5 ∷ v6 ∷ v7 ∷ [])
          (
            refl,
            h0,
            (refl, h1, (refl, h2, (refl, h3, (refl, h4, (refl, h5, (refl, h6, (refl, h7, tt))))))),
          )
          refl

  -- Fewer bytes than a unit has.
  part_back :
      (w size : ℕ) (bytes : List ℕ)
      → 0 < size
      → data_bytes u (w ∷ 0 ∷ 0 ∷ 0 ∷ 0 ∷ 0 ∷ 0 ∷ 0 ∷ []) 0 size ≡ ok bytes
      → ((open_now : Bool) (out : List ℕ) (last : ℕ) (more : List ℕ)
          → read_data 0 size last 0 [] (left open_now out (bytes ++ more))
            ≡ ([], w, left open_now out more))
      → ComesBack u (w ∷ 0 ∷ 0 ∷ 0 ∷ 0 ∷ 0 ∷ 0 ∷ 0 ∷ []) size
  unfolding read_units copy_values
  part_back w size bytes pos e r = record {
    bytes = bytes;
    write = e;
    read = λ open_now out last more. (
      w ∷ [],
      let none_whole : ltb (0 * 8) size ≡ true = ground arith in
          rw (r open_now out last more, none_whole),
      refl,
    );
  }

  pub byte_back : (w : ℕ) → w < 2 ^ 8 → ComesBack u (w ∷ 0 ∷ 0 ∷ 0 ∷ 0 ∷ 0 ∷ 0 ∷ 0 ∷ []) 1
  unfolding data_bytes vector_at
  byte_back w h =
      let fits : w < 2 ^ 64 = omega arith in
      let us : List ℕ = w ∷ 0 ∷ 0 ∷ 0 ∷ 0 ∷ 0 ∷ 0 ∷ 0 ∷ [] in
      let lowest : w / 2 ^ 0 % 256 ≡ w % 256 = omega arith in
      let whole : w % 2 ^ 8 ≡ w = omega arith in
      part_back w 1 (w / 2 ^ 0 % 256 ∷ []) (omega arith)
        (next_byte u us 0 refl (inl refl) 0 0 w _ (omega arith) fits refl refl)
        λ open_now out last more.
          first_byte open_now out 0 refl 0 last 0 _ [] _
          ∙ read_end 1 _ _ [] _
          ∙ simp (lowest, mask_byte, join_0 w) (rw whole)

  pub half_back : (w : ℕ) → w < 2 ^ 16 → ComesBack u (w ∷ 0 ∷ 0 ∷ 0 ∷ 0 ∷ 0 ∷ 0 ∷ 0 ∷ []) 2
  unfolding data_bytes vector_at
  half_back w h =
      let fits : w < 2 ^ 64 = omega arith in
      let us : List ℕ = w ∷ 0 ∷ 0 ∷ 0 ∷ 0 ∷ 0 ∷ 0 ∷ 0 ∷ [] in
      let lowest : w / 2 ^ 0 % 256 ≡ w % 256 = omega arith in
      let whole : w % 2 ^ 16 ≡ w = omega arith in
      part_back w 2 (w / 2 ^ 0 % 256 ∷ w / 2 ^ 8 % 256 ∷ []) (omega arith)
        (next_byte u us 0 refl (inl refl) 0 1 w _ (omega arith) fits refl
          (next_byte u us 0 refl (inl refl) 1 0 w _ (omega arith) fits refl refl))
        λ open_now out last more.
          first_byte open_now out 0 refl 1 last 0 _ [] _
          ∙ middle_byte open_now out 0 refl 1 0 _ _ _ [] _ (omega arith) (omega arith)
          ∙ read_end 2 _ _ [] _
          ∙ simp (lowest, mask_byte, join_0 w, join_1 w) (rw whole)

  pub single_back : (w : ℕ) → w < 2 ^ 32 → ComesBack u (w ∷ 0 ∷ 0 ∷ 0 ∷ 0 ∷ 0 ∷ 0 ∷ 0 ∷ []) 4
  unfolding data_bytes vector_at
  single_back w h =
      let fits : w < 2 ^ 64 = omega arith in
      let us : List ℕ = w ∷ 0 ∷ 0 ∷ 0 ∷ 0 ∷ 0 ∷ 0 ∷ 0 ∷ [] in
      let lowest : w / 2 ^ 0 % 256 ≡ w % 256 = omega arith in
      let whole : w % 2 ^ 32 ≡ w = omega arith in
      part_back w 4 (w / 2 ^ 0 % 256 ∷ w / 2 ^ 8 % 256 ∷ w / 2 ^ 16 % 256 ∷ w / 2 ^ 24 % 256 ∷ [])
        (omega arith)
        (next_byte u us 0 refl (inl refl) 0 3 w _ (omega arith) fits refl (
          next_byte u us 0 refl (inl refl) 1 2 w _ (omega arith) fits refl (
            next_byte u us 0 refl (inl refl) 2 1 w _ (omega arith) fits refl
              (next_byte u us 0 refl (inl refl) 3 0 w _ (omega arith) fits refl refl))))
        λ open_now out last more.
          first_byte open_now out 0 refl 3 last 0 _ [] _
          ∙ middle_byte open_now out 0 refl 1 2 _ _ _ [] _ (omega arith) (omega arith)
          ∙ middle_byte open_now out 0 refl 2 1 _ _ _ [] _ (omega arith) (omega arith)
          ∙ middle_byte open_now out 0 refl 3 0 _ _ _ [] _ (omega arith) (omega arith)
          ∙ read_end 4 _ _ [] _
          ∙ simp (lowest, mask_byte, join_0 w, join_1 w, join_2 w, join_3 w) (rw whole)
