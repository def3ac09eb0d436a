-- ===== src/Machine/Keeps.antt =====
-- What an action keeps and returns, with one rule for each way to build an action.
use cmpe220fall.Base.{◌≡◌, refl, Bool, true, false}
use cmpe220fall.Machine.Data.{Hart, Trap}
use cmpe220fall.Machine.Monad.{
  Action, Outcome, ret, throw, early, aborted, pure, raise, gets, ◌>>=◌, continue, require,
}

-- What holds of a result, if there is one.
abbrev pub Returns : {A : Type 0} → (A → Type 0) → Outcome A → Type 0
Returns Q (ret a) = Q a
Returns Q (throw t) = Unit
Returns Q (early n) = Unit
Returns Q aborted = Unit

-- From a hart with `P` the action `m` ends in a hart with `P`, however it ends, and what it returns
-- has `Q`.
pub record Keeps {A : Type 0} (P : Hart → Type 0) (Q : A → Type 0) (m : Action A) : Type 0 where
  pub at : (h : Hart) → P h → P (m h).1 × Returns Q (m h).0

abbrev pub Anything : {A : Type 0} → A → Type 0
Anything a = Unit

module _ {A : Type 0} {P : Hart → Type 0} where
  pub Keeps-pure : (Q : A → Type 0) (a : A) → Q a → Keeps P Q (pure a)
  Keeps-pure Q a q = record { at = λ h p. (p, q) }

  pub Keeps-raise : (Q : A → Type 0) (t : Trap) → Keeps P Q (raise t)
  Keeps-raise Q t = record { at = λ h p. (p, tt) }

  pub Keeps-gets :
      (Q : A → Type 0) (f : Hart → A) → ((h : Hart) → P h → Q (f h)) → Keeps P Q (gets f)
  Keeps-gets Q f q = record { at = λ h p. (p, q h p) }

module _ {A B : Type 0} {P : Hart → Type 0} where
  continue-Keeps :
      (Q : A → Type 0) (R : B → Type 0) (f : A → Action B)
      → ((a : A) → Q a → Keeps P R (f a))
      → (r : Outcome A) (h : Hart) → P h
      → Returns Q r
      → P (continue r f h).1 × Returns R (continue r f h).0
  continue-Keeps Q R f kf (ret a) h p q = (kf a q).at h p
  continue-Keeps Q R f kf (throw t) h p q = (p, tt)
  continue-Keeps Q R f kf (early n) h p q = (p, tt)
  continue-Keeps Q R f kf aborted h p q = (p, tt)

  pub Keeps-bind :
      (Q : A → Type 0) (R : B → Type 0) (m : Action A) (f : A → Action B)
      → Keeps P Q m
      → ((a : A) → Q a → Keeps P R (f a))
      → Keeps P R (m >>= f)
  Keeps-bind Q R m f km kf = record {
    at = λ h p. let (pm, qm) = km.at h p in continue-Keeps Q R f kf (m h).0 (m h).1 pm qm;
  }

module _ {P : Hart → Type 0} where
  pub require-Keeps : (b : Bool) → Keeps P (λ _. b ≡ true) (require b)
  unfolding require
  require-Keeps true = record { at = λ h p. (p, refl) }
  require-Keeps false = record { at = λ h p. (p, tt) }
