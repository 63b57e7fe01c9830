-- ===== src/Base/Runs.antt =====
-- What a run keeps, one rule for each way to build it.
use mathlib.Core.Path.{◌≡◌, refl, subst}
use mathlib.Core.Bool.{Bool, true, false}
use mathlib.Core.Option.{Option, none, some}
use native.Mathlib.Omega.{arith}
use ipk2024_projekt.Base.Machine.{M, access, ret, ◌>>=◌, ◌>>◌}
use ipk2024_projekt.Base.Tests.{if◌then◌else◌}

-- A block that returned, by the results of its first step and of the rest.
>>=_inv :
    {S A B : Type 0} (r : Option (A × S)) (f : A → M S B) (b : B) (t : S)
    → (elim r as (λ _. Option (B × S)) [ none ↦ none | some (a, s) ↦ f a s ]) ≡ some (b, t)
    → (a : A) × (s : S) × (r ≡ some (a, s)) × (f a s ≡ some (b, t))
>>=_inv none f b t e = cc
>>=_inv (some (a, s)) f b t e = (a, s, refl, e)

>>_inv :
    {S B : Type 0} (r : Option (Unit {0} × S)) (k : M S B) (b : B) (t : S)
    → (elim r as (λ _. Option (B × S)) [ none ↦ none | some (a, s) ↦ k s ]) ≡ some (b, t)
    → (a : Unit {0}) × (s : S) × (r ≡ some (a, s)) × (k s ≡ some (b, t))
>>_inv none k b t e = cc
>>_inv (some (a, s)) k b t e = (a, s, refl, e)

-- Where `P` holds before `m`, it holds after it, unless `m` faults.
pub record Keeps {S A : Type 0} (P : S → Type 0) (m : M S A) : Type 0 where
  pub at : (s t : S) (a : A) → P s → m s ≡ some (a, t) → P t

module _ {S A : Type 0} {P : S → Type 0} where
  pub Keeps-ret : (a : A) → Keeps P (ret a)
  Keeps-ret a = record { at = λ s t b h e. ground arith }

  pub Keeps-access : (a : Option A) → Keeps P (access a)
  Keeps-access none = record { at = λ s t b h e. cc }
  Keeps-access (some a) = record { at = λ s t b h e. ground arith }

  pub Keeps-if :
      (test : Bool) (left right : M S A)
      → (test ≡ true → Keeps P left)
      → (test ≡ false → Keeps P right)
      → Keeps P (if test then left else right)
  Keeps-if true left right keep_left keep_right = keep_left refl
  Keeps-if false left right keep_left keep_right = keep_right refl

module _ {S A B : Type 0} {P : S → Type 0} where
  -- What follows may use that it runs on the result of `m`.
  pub Keeps-bind_at :
      (m : M S A) (f : A → M S B)
      → Keeps P m
      → ((s t : S) (a : A) → P s → m s ≡ some (a, t) → Keeps P (f a))
      → Keeps P (m >>= f)
  Keeps-bind_at m f km kf = record {
    at = λ s t b h e.
        let (a, u, em, ef) = >>=_inv (m s) f b t e in
        (kf s u a h em).at u t b (km.at s u a h em) ef;
  }

  pub Keeps-bind :
      (m : M S A) (f : A → M S B) → Keeps P m → ((a : A) → Keeps P (f a)) → Keeps P (m >>= f)
  Keeps-bind m f km kf = Keeps-bind_at m f km (λ s t a h e. kf a)

module _ {S B : Type 0} {P : S → Type 0} where
  pub Keeps-then : (m : M S (Unit {0})) (k : M S B) → Keeps P m → Keeps P k → Keeps P (m >> k)
  Keeps-then m k km kk = record {
    at =
        λ s t b h e. let (a, u, em, ek) = >>_inv (m s) k b t e in kk.at u t b (km.at s u a h em) ek;
  }

-- What `m` returns is in `Q`, unless `m` faults.
pub record Yields {S A : Type 0} (Q : A → Type 0) (m : M S A) : Type 0 where
  pub at : (s t : S) (a : A) → m s ≡ some (a, t) → Q a

module _ {S A : Type 0} {Q : A → Type 0} where
  pub Yields-ret : (a : A) → Q a → Yields {S = S} Q (ret a)
  Yields-ret a q = record { at = λ s t b e. subst Q (ground (arith, e)) q }

  pub Yields-if : (b : Bool) (m n : M S A) → Yields Q m → Yields Q n → Yields Q (if b then m else n)
  Yields-if true m n ym yn = ym
  Yields-if false m n ym yn = yn

  pub Yields-access : (o : Option A) → ((a : A) → o ≡ some a → Q a) → Yields {S = S} Q (access o)
  Yields-access none q = record { at = λ s t b e. cc }
  Yields-access (some a) q = record { at = λ s t b e. subst Q (ground (arith, e)) (q a refl) }

  pub Yields-then : (m : M S (Unit {0})) (k : M S A) → Yields Q k → Yields Q (m >> k)
  Yields-then m k yk = record {
    at = λ s t b e. let (a, u, em, ek) = >>_inv (m s) k b t e in yk.at u t b ek;
  }

module _ {S A B : Type 0} {R : A → Type 0} {Q : B → Type 0} where
  pub Yields-bind :
      (m : M S A) (f : A → M S B)
      → Yields R m
      → ((a : A) → R a → Yields Q (f a))
      → Yields Q (m >>= f)
  Yields-bind m f ym yf = record {
    at = λ s t b e.
        let (a, u, em, ef) = >>=_inv (m s) f b t e in (yf a (ym.at s u a em)).at u t b ef;
  }

module _ {S A B : Type 0} {Q : B → Type 0} where
  -- Whatever the first step returns.
  pub Yields-any : (m : M S A) (f : A → M S B) → ((a : A) → Yields Q (f a)) → Yields Q (m >>= f)
  Yields-any m f yf = record {
    at = λ s t b e. let (a, u, em, ef) = >>=_inv (m s) f b t e in (yf a).at u t b ef;
  }
