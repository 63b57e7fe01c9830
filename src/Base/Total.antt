-- ===== src/Base/Total.antt =====
-- A run that returns, with what it keeps and what it gives, one rule for each way to build it.
use mathlib.Core.Path.{◌≡◌, refl}
use mathlib.Core.Logic.{◌≢◌}
use mathlib.Core.Bool.{Bool, true, false}
use mathlib.Core.Option.{Option, none, some}
use native.Mathlib.Omega.{arith}
use ipk2024_projekt.Base.Machine.{M, access, ret, ◌>>=◌, ◌>>◌}
use ipk2024_projekt.Base.Tests.{if◌then◌else◌}
use ipk2024_projekt.Base.Runs.{Yields}

-- From a state in `P`, `m` does not fault, comes to a state in `P`, and gives a value in `Q`.
pub record Returns {S A : Type 0} (P : S → Type 0) (Q : A → Type 0) (m : M S A) : Type 0 where
  pub at : (s : S) → P s → (a : A) × (t : S) × (m s ≡ some (a, t)) × P t × Q a

-- Every value, and every state.
abbrev pub Any : {A : Type 0} → A → Type 0
Any a = Unit {0}

module _ {S A : Type 0} {P : S → Type 0} {Q : A → Type 0} where
  pub Returns-ret : (a : A) → Q a → Returns P Q (ret a)
  Returns-ret a q = record { at = λ s h. (a, s, refl, h, q) }

  pub Returns-access : (o : Option A) (a : A) → o ≡ some a → Q a → Returns P Q (access o)
  Returns-access none a e q = cc
  Returns-access (some b) a e q = record { at = λ s h. (a, s, ground (arith, e), h, q) }

  pub Returns-if :
      (test : Bool) (left right : M S A)
      → (test ≡ true → Returns P Q left)
      → (test ≡ false → Returns P Q right)
      → Returns P Q (if test then left else right)
  Returns-if true left right in_left in_right = in_left refl
  Returns-if false left right in_left in_right = in_right refl

  -- Less is promised of the value.
  pub Returns-weaken :
      {R : A → Type 0} (m : M S A) → Returns P R m → ((a : A) → R a → Q a) → Returns P Q m
  Returns-weaken m r imp = record {
    at = λ s h. let (a, t, e, k, q) = r.at s h in (a, t, e, k, imp a q);
  }

module _ {S A B : Type 0} {P : S → Type 0} {Q : B → Type 0} where
  pub Returns-bind :
      {R : A → Type 0} (m : M S A) (f : A → M S B)
      → Returns P R m
      → ((a : A) → R a → Returns P Q (f a))
      → Returns P Q (m >>= f)
  Returns-bind m f rm rf = record {
    at = λ s h.
        let (a, u, em, k, q) = rm.at s h in
        let (b, t, ef, l, r) = (rf a q).at u k in (b, t, ground (arith, em, ef), l, r);
  }

module _ {S A B : Type 0} {P : S → Type 0} {Q : B → Type 0} where
  -- Whatever the first step gives.
  pub Returns-from :
      (m : M S A) (f : A → M S B)
      → Returns P Any m
      → ((a : A) → Returns P Q (f a))
      → Returns P Q (m >>= f)
  Returns-from m f rm rf = Returns-bind m f rm (λ a q. rf a)

module _ {S B : Type 0} {P : S → Type 0} {Q : B → Type 0} where
  pub Returns-then :
      (m : M S (Unit {0})) (k : M S B) → Returns P Any m → Returns P Q k → Returns P Q (m >> k)
  Returns-then m k rm rk = record {
    at = λ s h.
        let (a, u, em, p, q) = rm.at s h in
        let (b, t, ek, l, r) = rk.at u p in (b, t, ground (arith, em, ek), l, r);
  }

-- Code that never faults gives what it yields.
pub Returns-Yields :
    {S A : Type 0} {Q : A → Type 0} (m : M S A)
    → ((s : S) → m s ≢ none)
    → Yields Q m
    → Returns Any Q m
Returns-Yields {S} {A} {Q} m total y = record { at = λ s h. go s (m s) refl }
  where
    go :
        (s : S) (r : Option (A × S))
        → m s ≡ r
        → (a : A) × (t : S) × (m s ≡ some (a, t)) × Any t × Q a
    go s none e = absurd (total s e)
    go s (some (a, t)) e = (a, t, e, tt, y.at s t a e)
