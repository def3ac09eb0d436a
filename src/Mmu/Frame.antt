-- ===== src/Mmu/Frame.antt =====
-- Translation and the memory of the port change no register: the state of the hart is as before.
use cmpe220fall.Base.{
  ℕ, zero, suc, ◌≡◌, refl, ◌∙◌, Bool, true, false, Option, none, some, if◌then◌else◌,
}
use cmpe220fall.Machine.{
  AccessType, Mmu, Hart, Trap, Outcome, ret, throw, early, aborted, Action, pure, raise, gets,
  modify, ◌>>=◌, continue,
}
use cmpe220fall.Mmu.Tlb.{modify_mmu}
use cmpe220fall.Mmu.Walk.{walk_levels, walk_in, walk, walked_to, translate}
use cmpe220fall.Mmu.Access.{trace_or_refill}

-- The hart `t` is `h` but for its memory port and its devices.
pub record Untouched (h t : Hart) : Type 0 where
  pub state : t.state ≡ h.state
  pub xlen : t.xlen ≡ h.xlen
  pub max_xlen : t.max_xlen ≡ h.max_xlen
  pub cpuid : t.cpuid ≡ h.cpuid

Untouched-refl : (h : Hart) → Untouched h h
Untouched-refl h = record { state = refl; xlen = refl; max_xlen = refl; cpuid = refl }

Untouched-trans : (h t u : Hart) → Untouched t u → Untouched h t → Untouched h u
Untouched-trans h t u p q = record {
  state = p.state ∙ q.state;
  xlen = p.xlen ∙ q.xlen;
  max_xlen = p.max_xlen ∙ q.max_xlen;
  cpuid = p.cpuid ∙ q.cpuid;
}

pub record LeavesState {A : Type 0} (m : Action A) : Type 0 where
  pub at : (h : Hart) → Untouched h (m h).1

module _ {A : Type 0} where
  LeavesState-pure : (a : A) → LeavesState (pure a)
  LeavesState-pure a = record { at = Untouched-refl }

  LeavesState-raise : (t : Trap) → LeavesState (raise {A = A} t)
  LeavesState-raise t = record { at = Untouched-refl }

  LeavesState-gets : (f : Hart → A) → LeavesState (gets f)
  LeavesState-gets f = record { at = Untouched-refl }

  LeavesState-if :
      (b : Bool) (m n : Action A) → LeavesState m → LeavesState n → LeavesState (if b then m else n)
  LeavesState-if true m n km kn = km
  LeavesState-if false m n km kn = kn

LeavesState-modify : (f : Hart → Hart) → ((h : Hart) → Untouched h (f h)) → LeavesState (modify f)
LeavesState-modify f k = record { at = k }

module _ {A B : Type 0} where
  continue-state :
      (f : A → Action B)
      → ((a : A) → LeavesState (f a))
      → (r : Outcome A) (h : Hart) → Untouched h (continue r f h).1
  continue-state f k (ret a) h = (k a).at h
  continue-state f k (throw t) h = Untouched-refl h
  continue-state f k (early n) h = Untouched-refl h
  continue-state f k aborted h = Untouched-refl h

  LeavesState-bind :
      (m : Action A) (f : A → Action B)
      → LeavesState m
      → ((a : A) → LeavesState (f a))
      → LeavesState (m >>= f)
  LeavesState-bind m f km kf = record {
    at = λ h. Untouched-trans h _ _ (continue-state f kf (m h).0 (m h).1) (km.at h);
  }

ruleset state_rules = (
  LeavesState-pure, LeavesState-raise, LeavesState-gets, LeavesState-if, LeavesState-modify,
  LeavesState-bind,
)

pub modify_mmu-LeavesState : (f : Mmu → Mmu) → LeavesState (modify_mmu f)
modify_mmu-LeavesState f = record {
  at = λ h. record { state = refl; xlen = refl; max_xlen = refl; cpuid = refl };
}

walk_levels-LeavesState :
    (bits size addr : ℕ) (s : Bool) (type : AccessType) (levels base : ℕ)
    → LeavesState (walk_levels bits size addr s type levels base)
unfolding walk_levels
walk_levels-LeavesState bits size addr s type zero base = record { at = Untouched-refl }
walk_levels-LeavesState bits size addr s type (suc levels) base =
    search
      (state_rules, modify_mmu-LeavesState, walk_levels-LeavesState bits size addr s type levels)
      depth 8

walk_in-LeavesState :
    (addr : ℕ) (s : Bool) (type : AccessType) (layout : Option (ℕ × ℕ × ℕ))
    → LeavesState (walk_in addr s type layout)
walk_in-LeavesState addr s type none = record { at = Untouched-refl }
walk_in-LeavesState addr s type (some (levels, bits, size)) =
    search (state_rules, walk_levels-LeavesState) depth 8

walk-LeavesState : (addr : ℕ) (s : Bool) (type : AccessType) → LeavesState (walk addr s type)
unfolding walk
walk-LeavesState addr s type = search (state_rules, walk_in-LeavesState)

walked_to-LeavesState :
    (addr : ℕ) (type : AccessType) (mode : ℕ) → LeavesState (walked_to addr type mode)
unfolding walked_to
walked_to-LeavesState addr type mode = search (state_rules, walk-LeavesState)

pub translate-LeavesState : (addr : ℕ) (type : AccessType) → LeavesState (translate addr type)
unfolding translate
translate-LeavesState addr type = search (state_rules, walked_to-LeavesState)

pub trace_or_refill-LeavesState :
    (addr paddr len : ℕ) (type : AccessType) → LeavesState (trace_or_refill addr paddr len type)
unfolding trace_or_refill
trace_or_refill-LeavesState addr paddr len type = search state_rules depth 7
