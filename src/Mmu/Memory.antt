-- ===== src/Mmu/Memory.antt =====
-- Little-endian accesses to byte memory, as the host makes them through pointers of each width.
use cmpe220fall.Base.{ℕ, zero, suc, ◌+◌, ◌*◌, ◌/◌, ◌%◌, ◌==◌, if◌then◌else◌}

unfoldable pub update : {A : Type 0} → (ℕ → A) → ℕ → A → ℕ → A
update f i v j = if j == i then v else f j

-- The number in the `len` bytes from `p` on.
unfoldable pub load_le : (ℕ → ℕ) → ℕ → ℕ → ℕ
load_le mem p zero = 0
load_le mem p (suc len) = mem p % 256 + 256 * load_le mem (p + 1) len

unfoldable pub store_le : (ℕ → ℕ) → ℕ → ℕ → ℕ → ℕ → ℕ
unfolding update
store_le mem p zero v = mem
store_le mem p (suc len) v = store_le (update mem p (v % 256)) (p + 1) len (v / 256)
