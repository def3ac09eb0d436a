-- ===== src/CacheSim/Tags.antt =====
-- The tags of the cache simulators: the flags VALID and DIRTY, and the search of `check_tag`.
use cmpe220fall.Base.{
  ℕ, zero, suc, ◌+◌, ◌-◌, ◌*◌, ◌/◌, ◌%◌, ◌^◌, ◌<◌, ◌≤◌, ◌≡◌, ◌≢◌, refl, sym, ap, ◌∙◌, arith,
  bit_and, bit_or, ◌⊎◌, inl, inr, none, some, Bool-cases, ◌==◌, ==_iff,
}
use mathlib.Core.Bool.{false≢true}
use mathlib.Core.Option.{some-injective, none-ne-some}
use cmpe220fall.Base.Word.{not64}
use cmpe220fall.Base.Bits.{
  bit_and-IsDigitwise, bit_or-IsDigitwise, digitwise_split, bit_or-zero, bit_and-ones, bit_and-step,
  bit_or-step,
}
use cmpe220fall.CacheSim.Cache.{Cache, dirty, tag_of, find_tag}

-- A tag without its DIRTY flag, as `check_tag` compares it.
abbrev pub clean : ℕ → ℕ
clean t = bit_and t (not64 dirty)

-- A tag cut at its flags.
clean-cut : (a b : ℕ) → b < 2 ^ 62 → clean (a * 2 ^ 62 + b) ≡ bit_and a 2 * 2 ^ 62 + b
clean-cut a b p =
    digitwise_split bit_and-IsDigitwise 62 a b 2 (2 ^ 62 - 1) p (omega arith)
    ∙ ap (λ x. bit_and a 2 * 2 ^ 62 + x) (bit_and-ones 62 b p)

dirty-cut : (a b : ℕ) → b < 2 ^ 62 → bit_or (a * 2 ^ 62 + b) dirty ≡ bit_or a 1 * 2 ^ 62 + b
dirty-cut a b p =
    digitwise_split bit_or-IsDigitwise 62 a b 1 0 p (omega arith)
    ∙ ap (λ x. bit_or a 1 * 2 ^ 62 + x) (bit_or-zero b)

two-or_one : (a : ℕ) → bit_and (bit_or a 1) 2 ≡ bit_and a 2
two-or_one a =
    let first = bit_or-step a 1 in
    let same = bit_or-zero (a / 2) in
    let half : bit_or a 1 / 2 ≡ a / 2 = omega arith in
    let second = rw half at (bit_and-step (bit_or a 1) 2) in
    let third = bit_and-step a 2 in omega arith

-- The DIRTY flag does not matter to the search.
pub clean-dirty : (t : ℕ) → clean (bit_or t dirty) ≡ clean t
clean-dirty t =
    let a = t / 2 ^ 62 in
    let b = t % 2 ^ 62 in
    let cut : t ≡ a * 2 ^ 62 + b = omega arith in
    let marked = ap (λ x. clean (bit_or x dirty)) cut ∙ ap clean (dirty-cut a b (omega arith)) in
    let left = marked ∙ clean-cut (bit_or a 1) b (omega arith) in
    let right = ap clean cut ∙ clean-cut a b (omega arith) in
    left ∙ ap (λ x. x * 2 ^ 62 + b) (two-or_one a) ∙ sym right

-- The line of an address, which has few enough bits that VALID is a flag beside it.
tag_of_lem :
    (c : Cache) (addr : ℕ)
    → addr / 2 ^ c.idx_shift < 2 ^ 61
    → tag_of c addr ≡ 2 * 2 ^ 62 + addr / 2 ^ c.idx_shift
unfolding tag_of
tag_of_lem c addr p =
    let line = addr / 2 ^ c.idx_shift in
    let whole : 0 * 2 ^ 62 + line ≡ line = omega arith in
    rw whole at (digitwise_split bit_or-IsDigitwise 62 0 line 2 0 (omega arith) (omega arith))
    ∙ ap (λ x. 2 * 2 ^ 62 + x) (bit_or-zero line)

pub tag_of-clean :
    (c : Cache) (addr : ℕ) → addr / 2 ^ c.idx_shift < 2 ^ 61 → clean (tag_of c addr) ≡ tag_of c addr
tag_of-clean c addr p =
    let e = tag_of_lem c addr p in
    ap clean e ∙ clean-cut 2 (addr / 2 ^ c.idx_shift) (omega arith) ∙ sym e

pub find_tag-found :
    (tags : ℕ → ℕ) (tag k p q : ℕ)
    → find_tag tags tag k p ≡ some q
    → (p ≤ q) × (q < p + k) × (tag ≡ clean (tags q))
unfolding find_tag
find_tag-found tags tag zero p q e = absurd (none-ne-some _ e)
find_tag-found tags tag (suc k) p q e = elim (Bool-cases (tag == clean (tags p))) [
  | inl b ↦
      let same = some-injective _ _ (rw b at e) in
      let eq = (==_iff tag (clean (tags p))).0 b in
      (omega arith, omega arith, eq ∙ ap (λ x. clean (tags x)) same)
  | inr b ↦
      let (le, lt, eq) = find_tag-found tags tag k (p + 1) q (rw b at e) in
      (omega arith, omega arith, eq)
]

first_or_later : (i : ℕ) → (i ≡ 0) ⊎ ((j : ℕ) × (i ≡ suc j))
first_or_later zero = inl refl
first_or_later (suc j) = inr (j, refl)

at_start : (p i : ℕ) → i ≡ 0 → p + i ≡ p
at_start p i z = omega arith

pub find_tag-all :
    (tags : ℕ → ℕ) (tag k p i : ℕ)
    → i < k
    → tag ≡ clean (tags (p + i))
    → find_tag tags tag k p ≢ none
unfolding find_tag
find_tag-all tags tag zero p i lt e n = absurd (omega arith)
find_tag-all tags tag (suc k) p i lt e n = elim (Bool-cases (tag == clean (tags p))) [
  | inl b ↦ none-ne-some _ (sym (rw b at n))
  | inr b ↦ elim (first_or_later i) [
    | inl z ↦
        false≢true
          (sym b ∙ (==_iff tag (clean (tags p))).1 (e ∙ ap (λ x. clean (tags x)) (at_start p i z)))
    | inr (j, s) ↦
        find_tag-all tags tag k (p + 1) j (omega arith) (e ∙ ap (λ x. clean (tags x)) (omega arith))
          (rw b at n)
  ]
]
