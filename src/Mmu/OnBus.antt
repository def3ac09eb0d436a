-- ===== src/Mmu/OnBus.antt =====
-- Loads and stores on a bus whose devices may change the hart: what is kept, if the bus keeps it, and
-- how wide an answer is.
use cmpe220fall.Base.{
  ℕ, zero, suc, refl, ◌∷◌, ◌+◌, ◌*◌, ◌^◌, ◌<◌, arith, ltb, Bool, true, false, Option, none, some,
  if◌then◌else◌,
}
use cmpe220fall.Base.Word.{add64}
use cmpe220fall.Machine.{
  Hart, MmioStore, Bus, load, store, load_address_misaligned, store_address_misaligned,
  store_access_fault, ret, throw, early, aborted, Action, pure, raise, gets, modify, skip, ◌>>=◌,
}
use cmpe220fall.Machine.Keeps.{
  Keeps, Anything, Returns, Keeps-bind, Keeps-pure, Keeps-raise, Keeps-gets,
}
use cmpe220fall.Mmu.Memory.{load_le, store_le}
use cmpe220fall.Mmu.Roundtrip.{byte-pow-suc}
use cmpe220fall.Mmu.Frame.{
  Untouched, LeavesState, translate-LeavesState, trace_or_refill-LeavesState,
  modify_mmu-LeavesState,
}
use cmpe220fall.Mmu.Access.{
  on_bus, load_slow_path, store_slow_path, mmio_load, mmio_store, or_load_fault, load_bytes,
  store_bytes, trace_or_refill, tlb_hit, tlb_address,
}
use cmpe220fall.Mmu.Tlb.{gets_mmu, modify_mmu}
use cmpe220fall.Mmu.Walk.{translate}

abbrev pub AnswerFits : ℕ → Option ℕ → Type 0
AnswerFits len none = Unit
AnswerFits len (some v) = v < 2 ^ (8 * len)

-- A bus whose devices keep `P` of the hart, and answer a load with as many bytes as were asked for.
pub record IsBus (P : Hart → Type 0) (bus : Bus) : Type 0 where
  pub load :
      (addr len : ℕ) (h : Hart)
      → P h
      → P (bus.load addr len h).1 × AnswerFits len (bus.load addr len h).0
  pub store : (addr len value : ℕ) (h : Hart) → P h → P (bus.store addr len value h).1

load_le-lt : (mem : ℕ → ℕ) (p len : ℕ) → load_le mem p len < 2 ^ (8 * len)
unfolding load_le
load_le-lt mem p zero = omega arith
load_le-lt mem p (suc len) = omega (arith, byte-pow-suc len, load_le-lt mem (p + 1) len)

-- What is kept is about nothing that the memory port alone may change.
module _ (P : Hart → Type 0) (stable : (h t : Hart) → Untouched h t → P h → P t) where
  leaves : {A : Type 0} (m : Action A) → LeavesState m → Keeps P Anything m
  leaves m k = record {
    at = λ h p. (
      stable h (m h).1 (k.at h) p,
      elim (m h).0 as (λ r. Returns Anything r) [
        | ret a ↦ tt
        | throw t ↦ tt
        | early n ↦ tt
        | aborted ↦ tt
      ],
    );
  }

  module _ {A B : Type 0} (Q : B → Type 0) where
    after :
        (m : Action A) (f : A → Action B)
        → LeavesState m
        → ((a : A) → Keeps P Q (f a))
        → Keeps P Q (m >>= f)
    after m f l k = Keeps-bind Anything Q m f (leaves m l) (λ a _. k a)

  module _ {B : Type 0} (Q : B → Type 0) where
    either :
        (b : Bool) (m n : Action B) → Keeps P Q m → Keeps P Q n → Keeps P Q (if b then m else n)
    either true m n km kn = km
    either false m n km kn = kn

  gets-LeavesState : {A : Type 0} (f : Hart → A) → LeavesState (gets f)
  gets-LeavesState f = record {
    at = λ h. record { state = refl; xlen = refl; max_xlen = refl; cpuid = refl };
  }

  module _ (bus : Bus) (b : IsBus P bus) where
    mmio_load-Keeps : (addr len : ℕ) → Keeps P (AnswerFits len) (mmio_load bus addr len)
    unfolding mmio_load
    mmio_load-Keeps addr len =
        either (AnswerFits len) (ltb (add64 addr len) addr) (pure none) (on_bus (bus.load addr len))
          (Keeps-pure (AnswerFits len) none tt) (record { at = λ h p. b.load addr len h p })

    answer-Keeps :
        (addr len : ℕ) (o : Option ℕ)
        → AnswerFits len o
        → Keeps P (λ v. v < 2 ^ (8 * len)) (or_load_fault bus addr o)
    answer-Keeps addr len none h = Keeps-raise (λ v. v < 2 ^ (8 * len)) _
    answer-Keeps addr len (some v) h = Keeps-pure (λ w. w < 2 ^ (8 * len)) v h

    read_memory-Keeps :
        (len p : ℕ) (f : ℕ → Action ℕ)
        → ((v : ℕ) → v < 2 ^ (8 * len) → Keeps P (λ v. v < 2 ^ (8 * len)) (f v))
        → Keeps P (λ v. v < 2 ^ (8 * len)) (gets (λ h. load_le h.mmu.mem p len) >>= f)
    read_memory-Keeps len p f k =
        Keeps-bind (λ v. v < 2 ^ (8 * len)) (λ v. v < 2 ^ (8 * len))
          (gets (λ h. load_le h.mmu.mem p len)) f
          (Keeps-gets (λ v. v < 2 ^ (8 * len)) (λ h. load_le h.mmu.mem p len)
            λ h q. load_le-lt h.mmu.mem p len)
          k

    slow-Keeps : (addr len : ℕ) → Keeps P (λ v. v < 2 ^ (8 * len)) (load_slow_path bus addr len)
    unfolding load_slow_path
    slow-Keeps addr len =
        let Q = λ (v : ℕ). v < 2 ^ (8 * len) in
        after Q (translate addr load) _ (translate-LeavesState addr load) λ paddr.
          after Q (gets_mmu (λ m. m.memsz)) _ (gets-LeavesState _) λ memsz.
            read_memory-Keeps len paddr _ λ v h.
              either Q (ltb paddr memsz) _ _
                (after Q (trace_or_refill addr paddr len load) _
                  (trace_or_refill-LeavesState addr paddr len load) λ u. Keeps-pure Q v h)
                (Keeps-bind (AnswerFits len) Q (mmio_load bus paddr len) (or_load_fault bus addr)
                  (mmio_load-Keeps paddr len) (λ o a. answer-Keeps addr len o a))

    pub load_bytes-Keeps :
        (len addr : ℕ) → Keeps P (λ v. v < 2 ^ (8 * len)) (load_bytes bus len addr)
    unfolding load_bytes
    load_bytes-Keeps len addr =
        let Q = λ (v : ℕ). v < 2 ^ (8 * len) in
        after Q (gets (λ h. h.mmu)) _ (gets-LeavesState _) λ m.
          either Q _ _ _ (Keeps-raise Q (load_address_misaligned addr)) (
            either Q (tlb_hit m.tlb_load_tag addr) _ _ (Keeps-pure Q _ (load_le-lt m.mem _ len))
              (slow-Keeps addr len))

    logged-LeavesState :
        (accepted : Bool) (entry : MmioStore)
        → LeavesState
            (modify (λ h. if accepted then record h { mmio_log = entry ∷ h.mmio_log } else h))
    logged-LeavesState true entry = record {
      at = λ h. record { state = refl; xlen = refl; max_xlen = refl; cpuid = refl };
    }
    logged-LeavesState false entry = record {
      at = λ h. record { state = refl; xlen = refl; max_xlen = refl; cpuid = refl };
    }

    mmio_store-Keeps : (addr len value : ℕ) → Keeps P Anything (mmio_store bus addr len value)
    unfolding mmio_store
    mmio_store-Keeps addr len value =
        Keeps-bind Anything Anything
          (if ltb (add64 addr len) addr then pure false else on_bus (bus.store addr len value)) _
          (either Anything (ltb (add64 addr len) addr) (pure false)
            (on_bus (bus.store addr len value)) (Keeps-pure Anything false tt)
            (record { at = λ h p. (b.store addr len value h p, tt) }))
          (λ accepted _.
            after Anything _ _ (logged-LeavesState accepted _) λ u. Keeps-pure Anything accepted tt)

    store_slow-Keeps : (addr len value : ℕ) → Keeps P Anything (store_slow_path bus addr len value)
    unfolding store_slow_path
    store_slow-Keeps addr len value =
        after Anything (translate addr store) _ (translate-LeavesState addr store) λ paddr.
          after Anything (gets_mmu (λ m. m.memsz)) _ (gets-LeavesState _) λ memsz.
            either Anything (ltb paddr memsz) _ _
              (after Anything (modify_mmu (λ m. record m { mem = store_le m.mem paddr len value }))
                _ (modify_mmu-LeavesState _)
                λ u.
                  leaves (trace_or_refill addr paddr len store)
                    (trace_or_refill-LeavesState addr paddr len store))
              (Keeps-bind Anything Anything (mmio_store bus paddr len value) _
                (mmio_store-Keeps paddr len value)
                λ accepted _.
                  either Anything accepted skip (raise (store_access_fault addr))
                    (Keeps-pure Anything tt tt) (Keeps-raise Anything (store_access_fault addr)))

    pub store_bytes-Keeps : (len addr value : ℕ) → Keeps P Anything (store_bytes bus len addr value)
    unfolding store_bytes
    store_bytes-Keeps len addr value =
        after Anything (gets (λ h. h.mmu)) _ (gets-LeavesState _) λ m.
          either Anything _ _ _ (Keeps-raise Anything (store_address_misaligned addr)) (
            either Anything (tlb_hit m.tlb_store_tag addr) _ _
              (leaves
                (modify_mmu (λ m. record m { mem = store_le m.mem (tlb_address m addr) len value }))
                (modify_mmu-LeavesState _))
              (store_slow-Keeps addr len value))
