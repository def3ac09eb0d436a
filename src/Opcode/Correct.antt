-- ===== src/Opcode/Correct.antt =====
-- The opcode cache and the moves in the list change no answer, but for the word 1, which the empty
-- cache entries hold.
use cmpe220fall.Base.{
  ℕ, ◌%◌, ◌≡◌, ◌≢◌, ◌⊎◌, inl, inr, refl, sym, ◌∙◌, ap, false, List, [], ◌∷◌, ◌++◌, Option, none,
  some, if◌then◌else◌, Bool-cases, ◌==◌, ==_iff,
}
use cmpe220fall.Opcode.Table.{Desc, fits, after, linear_search, lookup}
use cmpe220fall.Opcode.Grouped.{IsGrouped, IsConsistent}
use cmpe220fall.Opcode.Moves.{move_to_front-IsSame}
use cmpe220fall.Opcode.Decoder.{
  Decoder, decode_insn, found, select, build_opcode_map, sort, opcode_cache_size,
}

module _ {F : Type 0} where
  -- What a search says of the list.
  record IsFound (b : ℕ) (ds pre : List (Desc F)) (d : Desc F) (post : List (Desc F)) : Type 0 where
    split : ds ≡ pre ++ d ∷ post
    first : lookup b ds ≡ some d

  abbrev FoundIn : ℕ → List (Desc F) → Option (List (Desc F) × Desc F × List (Desc F)) → Type 0
  FoundIn b ds none = lookup b ds ≡ none
  FoundIn b ds (some (pre, d, post)) = IsFound b ds pre d post

  after-FoundIn :
      (b : ℕ) (p : Desc F) (ds : List (Desc F))
      (r : Option (List (Desc F) × Desc F × List (Desc F)))
      → fits b p ≡ false
      → FoundIn b ds r
      → FoundIn b (p ∷ ds) (after p r)
  unfolding lookup
  after-FoundIn b p ds none e k = rw e k
  after-FoundIn b p ds (some (pre, d, post)) e k = record {
    split = ap (λ xs. p ∷ xs) k.split;
    first = rw e k.first;
  }

  linear_search-FoundIn : (b : ℕ) (ds : List (Desc F)) → FoundIn b ds (linear_search b ds)
  unfolding linear_search lookup
  linear_search-FoundIn b [] = refl
  linear_search-FoundIn b (p ∷ ds) = elim (Bool-cases (fits b p)) [
    | inl e ↦ rw e (record { split = refl; first = rw e refl })
    | inr e ↦ rw e (after-FoundIn b p ds (linear_search b ds) e (linear_search-FoundIn b ds))
  ]

  abbrev functions : Option (Desc F) → Option (F × F)
  functions none = none
  functions (some d) = some (d.rv32, d.rv64)

  abbrev answer : ℕ → Option (F × F) → Option F
  answer xlen none = none
  answer xlen (some (f, g)) = some (if xlen == 64 then g else f)

  -- The instruction function that a list gives for a word at a width: that of the first
  -- description that fits.
  abbrev pub reference : ℕ → List (Desc F) → ℕ → Option F
  reference xlen table b = answer xlen (functions (lookup b table))

  module _ (table : List (Desc F)) where
    -- A cache entry is empty, or holds the answer for the word that it names.
    pub record IsDecoder (s : Decoder F) : Type 0 where
      pub grouped : IsGrouped s.instructions
      pub consistent : IsConsistent s.instructions
      pub found_same : (b : ℕ) → lookup b s.instructions ≡ lookup b table
      pub cached :
          (i : ℕ)
          → let e = s.opcode_cache i in
            (e.match_bits ≡ 1) ⊎ (functions (lookup e.match_bits table) ≡ some (e.rv32, e.rv64))

    -- The answer is the reference's, and the decoder stays correct.
    abbrev pub Answers : ℕ → ℕ → Option (F × Decoder F) → Type 0
    Answers xlen b none = reference xlen table b ≡ none
    Answers xlen b (some (f, s)) = (b ≢ 1 → reference xlen table b ≡ some f) × IsDecoder s

    found-Answers :
        (xlen b : ℕ) (s : Decoder F) (r : Option (List (Desc F) × Desc F × List (Desc F)))
        → IsDecoder s
        → FoundIn b s.instructions r
        → Answers xlen b (found xlen b s r)
    found-Answers xlen b s none k q = ap (λ r. answer xlen (functions r)) (sym (k.found_same b) ∙ q)
    found-Answers xlen b s (some (pre, d, post)) k q =
        let moved =
          move_to_front-IsSame d pre post (rw q.split at k.grouped) (rw q.split at k.consistent) in
        let hit : functions (lookup b table) ≡ some (d.rv32, d.rv64) =
          ap functions (sym (k.found_same b) ∙ q.first) in
        (
          (λ _. ap (answer xlen) hit),
          record {
            grouped = moved.grouped;
            consistent = moved.consistent;
            found_same = λ c. moved.found c ∙ ap (lookup c) (sym q.split) ∙ k.found_same c;
            cached = λ i. elim (Bool-cases (i == b % opcode_cache_size)) [
              | inl e ↦ rw e (inr hit)
              | inr e ↦ rw e (k.cached i)
            ];
          },
        )

    -- From a correct decoder, the answer to a word other than 1 is that of the first description of
    -- the table that fits, and the decoder stays correct.
    pub decode_insn-Answers :
        (xlen b : ℕ) (s : Decoder F) → IsDecoder s → Answers xlen b (decode_insn xlen b s)
    unfolding decode_insn
    decode_insn-Answers xlen b s k =
        let i = b % opcode_cache_size in
        elim (Bool-cases (b == (s.opcode_cache i).match_bits)) [
          | inl e ↦
              let same = (==_iff b (s.opcode_cache i).match_bits).0 e in
              let hit : b ≢ 1 → reference xlen table b ≡ some (select xlen (s.opcode_cache i)) =
                λ n. elim (k.cached i) [
                  | inl one ↦ absurd (n (same ∙ one))
                  | inr h ↦ ap (answer xlen) (ap (λ w. functions (lookup w table)) same ∙ h)
                ] in
              rw e (hit, k)
          | inr e ↦ rw e (
              found-Answers xlen b s (linear_search b s.instructions) k
                (linear_search-FoundIn b s.instructions))
        ]

  -- The decoder that `build_opcode_map` leaves is correct for the sorted list.
  pub build_opcode_map-IsDecoder :
      (illegal : F) (ds : List (Desc F))
      → IsGrouped (sort ds)
      → IsConsistent (sort ds)
      → IsDecoder (sort ds) (build_opcode_map illegal ds)
  unfolding build_opcode_map
  build_opcode_map-IsDecoder illegal ds g k = record {
    grouped = g;
    consistent = k;
    found_same = λ b. refl;
    cached = λ i. inl refl;
  }

  -- The decoders that decoding any words, at any widths, leads to.
  pub data Reached (start : Decoder F) : Decoder F → Type 0 where
    initially : Reached start start
    decoded :
        (xlen b : ℕ) (f : F) (s t : Decoder F)
        → Reached start s
        → decode_insn xlen b s ≡ some (f, t)
        → Reached start t

  module _ (table : List (Desc F)) where
    pub Reached-IsDecoder :
        (start s : Decoder F) → IsDecoder table start → Reached start s → IsDecoder table s
    Reached-IsDecoder start s k initially = k
    Reached-IsDecoder start _ k (decoded xlen b f s t r e) =
        (rw e at (decode_insn-Answers table xlen b s (Reached-IsDecoder start s k r))).1
