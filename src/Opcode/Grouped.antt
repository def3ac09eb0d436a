-- ===== src/Opcode/Grouped.antt =====
-- Why moving a description to the front of the list keeps every search's result: descriptions that
-- fit one word have equal match bits, and those with equal match bits stand together.
use cmpe220fall.Base.{
  ℕ, ◌≡◌, ◌≢◌, ◌⊎◌, inl, inr, sym, ◌∙◌, true, not, arith, List, [], ◌∷◌, ◌++◌, ◌==◌,
}
use cmpe220fall.Opcode.Table.{Desc, fits, differs_from_last, differs_from_head}

module _ {F : Type 0} where
  -- No description of the list has these match bits.
  abbrev pub Absent : ℕ → List (Desc F) → Type 0
  Absent m [] = Unit
  Absent m (d ∷ ds) = (m ≢ d.match_bits) × Absent m ds

  abbrev pub IsGrouped : List (Desc F) → Type 0
  IsGrouped [] = Unit
  IsGrouped (d ∷ []) = Unit
  IsGrouped (d ∷ e ∷ ds) =
      ((d.match_bits ≡ e.match_bits) ⊎ Absent d.match_bits (e ∷ ds)) × IsGrouped (e ∷ ds)

  -- If two descriptions fit one word, they have equal match bits.
  abbrev pub Meet : Desc F → Desc F → Type 0
  Meet d e = (b : ℕ) → fits b d ≡ true → fits b e ≡ true → d.match_bits ≡ e.match_bits

  abbrev pub MeetAll : Desc F → List (Desc F) → Type 0
  MeetAll d [] = Unit
  MeetAll d (e ∷ es) = Meet d e × MeetAll d es

  -- The same of a description and a later one, unless the later one fits every word.
  abbrev pub Agree : Desc F → Desc F → Type 0
  Agree d e = e.mask ≢ 0 → Meet d e

  abbrev pub AgreeAll : Desc F → List (Desc F) → Type 0
  AgreeAll d [] = Unit
  AgreeAll d (e ∷ es) = Agree d e × AgreeAll d es

  abbrev pub IsConsistent : List (Desc F) → Type 0
  IsConsistent [] = Unit
  IsConsistent (d ∷ ds) = AgreeAll d ds × IsConsistent ds

  module _ (d : Desc F) where
    pub Absent-append :
        (m : ℕ) (xs ys : List (Desc F)) → Absent m xs → Absent m ys → Absent m (xs ++ ys)
    Absent-append m [] ys pa pb = pb
    Absent-append m (a ∷ xs) ys (n, pa) pb = (n, Absent-append m xs ys pa pb)

    Absent-without :
        (m : ℕ) (pre post : List (Desc F)) → Absent m (pre ++ d ∷ post) → Absent m (pre ++ post)
    Absent-without m [] post (n, p) = p
    Absent-without m (a ∷ pre) post (n, p) = (n, Absent-without m pre post p)

    Absent-at : (m : ℕ) (pre post : List (Desc F)) → Absent m (pre ++ d ∷ post) → m ≢ d.match_bits
    Absent-at m [] post (n, p) = n
    Absent-at m (a ∷ pre) post (n, p) = Absent-at m pre post p

    IsGrouped-tail : (a : Desc F) (ds : List (Desc F)) → IsGrouped (a ∷ ds) → IsGrouped ds
    IsGrouped-tail a [] g = tt
    IsGrouped-tail a (b ∷ ds) (c, g) = g

    pub differs-lem : (m n : ℕ) → (not (m == n)) ≡ true → m ≢ n
    differs-lem m n e q = ground arith

    pub before-Absent :
        (pre post : List (Desc F))
        → IsGrouped (pre ++ d ∷ post)
        → differs_from_last pre d.match_bits ≡ true
        → Absent d.match_bits pre
    unfolding differs_from_last
    before-Absent [] post g e = tt
    before-Absent (a ∷ []) post g e = (differs-lem d.match_bits a.match_bits e, tt)
    before-Absent (a ∷ b ∷ pre) post (inl q, g) e =
        let rest = before-Absent (b ∷ pre) post g e in ((λ x. rest.0 (x ∙ q)), rest)
    before-Absent (a ∷ b ∷ pre) post (inr q, g) e =
        ((λ x. Absent-at a.match_bits (b ∷ pre) post q (sym x)), before-Absent (b ∷ pre) post g e)

    pub after-Absent :
        (pre post : List (Desc F))
        → IsGrouped (pre ++ d ∷ post)
        → differs_from_head post d.match_bits ≡ true
        → Absent d.match_bits post
    unfolding differs_from_head
    after-Absent [] [] g e = tt
    after-Absent [] (a ∷ post) (inl q, g) e = absurd (differs-lem d.match_bits a.match_bits e q)
    after-Absent [] (a ∷ post) (inr q, g) e = q
    after-Absent (a ∷ pre) post g e = after-Absent pre post (IsGrouped-tail a (pre ++ d ∷ post) g) e

    pub without-IsGrouped :
        (pre post : List (Desc F))
        → IsGrouped (pre ++ d ∷ post)
        → differs_from_last pre d.match_bits ≡ true
        → IsGrouped (pre ++ post)
    unfolding differs_from_last
    without-IsGrouped [] post g e = IsGrouped-tail d post g
    without-IsGrouped (a ∷ []) [] g e = tt
    without-IsGrouped (a ∷ []) (b ∷ post) (inl q, g) e =
        absurd (differs-lem d.match_bits a.match_bits e (sym q))
    without-IsGrouped (a ∷ []) (b ∷ post) (inr (n, q), g) e = (inr q, IsGrouped-tail d (b ∷ post) g)
    without-IsGrouped (a ∷ b ∷ pre) post (inl q, g) e =
        (inl q, without-IsGrouped (b ∷ pre) post g e)
    without-IsGrouped (a ∷ b ∷ pre) post (inr q, g) e =
        (inr (Absent-without a.match_bits (b ∷ pre) post q), without-IsGrouped (b ∷ pre) post g e)

    pub cons-IsGrouped :
        (ds : List (Desc F)) → Absent d.match_bits ds → IsGrouped ds → IsGrouped (d ∷ ds)
    cons-IsGrouped [] n g = tt
    cons-IsGrouped (e ∷ ds) n g = (inr n, g)
