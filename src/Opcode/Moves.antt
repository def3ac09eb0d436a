-- ===== src/Opcode/Moves.antt =====
-- Moving a description to the front of a grouped and consistent list keeps both, and changes the
-- result of no search.
use cmpe220fall.Base.{
  ℕ, ◌≡◌, ◌≢◌, inl, inr, refl, sym, true, false, not, List, [], ◌∷◌, ◌++◌, some, Bool-cases, ◌==◌,
}
use cmpe220fall.Opcode.Table.{
  Desc, fits, differs_from_last, differs_from_head, move_to_front, lookup,
}
use cmpe220fall.Opcode.Grouped.{
  Absent, IsGrouped, Meet, MeetAll, Agree, AgreeAll, differs-lem, IsConsistent, Absent-append,
  before-Absent, after-Absent, without-IsGrouped, cons-IsGrouped,
}

-- What the guard of the move makes sure of.
pub record IsSame {F : Type 0} (old new : List (Desc F)) : Type 0 where
  pub grouped : IsGrouped new
  pub consistent : IsConsistent new
  pub found : (b : ℕ) → lookup b new ≡ lookup b old

module _ {F : Type 0} (d : Desc F) where
  AgreeAll-without :
      (a : Desc F) (pre post : List (Desc F))
      → AgreeAll a (pre ++ d ∷ post)
      → Agree a d × AgreeAll a (pre ++ post)
  AgreeAll-without a [] post k = k
  AgreeAll-without a (b ∷ pre) post (kb, k) =
      let r = AgreeAll-without a pre post k in (r.0, (kb, r.1))

  IsConsistent-without :
      (pre post : List (Desc F))
      → d.mask ≢ 0
      → IsConsistent (pre ++ d ∷ post)
      → MeetAll d pre × AgreeAll d (pre ++ post) × IsConsistent (pre ++ post)
  IsConsistent-without [] post nz k = (tt, k.0, k.1)
  IsConsistent-without (a ∷ pre) post nz (ka, k) =
      let (meet, agree, rest) = IsConsistent-without pre post nz k in
      let (ad, a_rest) = AgreeAll-without a pre post ka in
      let da : Meet d a = λ b p q. sym (ad nz b q p) in
      ((da, meet), ((λ _. da), agree), (a_rest, rest))

  lookup-skip :
      (b : ℕ) (pre post : List (Desc F))
      → fits b d ≡ false
      → lookup b (pre ++ d ∷ post) ≡ lookup b (pre ++ post)
  unfolding lookup
  lookup-skip b [] post e = rw e refl
  lookup-skip b (a ∷ pre) post e = rw (lookup-skip b pre post e) refl

  lookup-first :
      (b : ℕ) (pre post : List (Desc F))
      → Absent d.match_bits pre
      → MeetAll d pre
      → fits b d ≡ true
      → lookup b (pre ++ d ∷ post) ≡ some d
  unfolding lookup
  lookup-first b [] post n k e = rw e refl
  lookup-first b (a ∷ pre) post (na, n) (ka, k) e = elim (Bool-cases (fits b a)) [
    | inl fa ↦ absurd (na (ka b e fa))
    | inr fa ↦ rw (fa, lookup-first b pre post n k e) refl
  ]

  lookup-moved :
      (b : ℕ) (pre post : List (Desc F))
      → Absent d.match_bits pre
      → MeetAll d pre
      → lookup b (d ∷ pre ++ post) ≡ lookup b (pre ++ d ∷ post)
  unfolding lookup
  lookup-moved b pre post n k = elim (Bool-cases (fits b d)) [
    | inl e ↦ rw e (sym (lookup-first b pre post n k e))
    | inr e ↦ rw e (sym (lookup-skip b pre post e))
  ]

  moved-IsSame :
      (pre post : List (Desc F))
      → IsGrouped (pre ++ d ∷ post)
      → IsConsistent (pre ++ d ∷ post)
      → d.mask ≢ 0
      → differs_from_last pre d.match_bits ≡ true
      → differs_from_head post d.match_bits ≡ true
      → IsSame (pre ++ d ∷ post) (d ∷ pre ++ post)
  moved-IsSame pre post g k nz last head =
      let before = before-Absent d pre post g last in
      let rest = IsConsistent-without pre post nz k in
      record {
        grouped =
            cons-IsGrouped d (pre ++ post)
              (Absent-append d d.match_bits pre post before (after-Absent d pre post g head))
              (without-IsGrouped d pre post g last);
        consistent = (rest.1, rest.2);
        found = λ b. lookup-moved b pre post before rest.0;
      }

  -- Moving to the front, or not, keeps the list grouped and consistent and every search's result.
  pub move_to_front-IsSame :
      (pre post : List (Desc F))
      → IsGrouped (pre ++ d ∷ post)
      → IsConsistent (pre ++ d ∷ post)
      → IsSame (pre ++ d ∷ post) (move_to_front pre d post)
  unfolding move_to_front
  move_to_front-IsSame pre post g k =
      let same : IsSame (pre ++ d ∷ post) (pre ++ d ∷ post) = record {
        grouped = g;
        consistent = k;
        found = λ b. refl;
      } in
      elim (Bool-cases (not (d.mask == 0))) [
        | inr e ↦ rw e same
        | inl e ↦ elim (Bool-cases (differs_from_last pre d.match_bits)) [
          | inr l ↦ rw (e, l) same
          | inl l ↦ elim (Bool-cases (differs_from_head post d.match_bits)) [
            | inr h ↦ rw (e, l, h) same
            | inl h ↦ rw (e, l, h) (moved-IsSame pre post g k (differs-lem d d.mask 0 e) l h)
          ]
        ]
      ]
