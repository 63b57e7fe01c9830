-- ===== src/World/Keeps.antt =====
-- What the client's code keeps, where it reads and writes the globals.
use ipk2024_projekt.Base.{
  Keeps, Keeps-bind_at, M, Option, Yields, access, arith, none, refl, some, subst, ◌>>=◌, ◌≡◌,
}
use ipk2024_projekt.Error.{Error, Exec}
use ipk2024_projekt.World.{World, gets, modify, run_exec}

module _ {P : World → Type 0} where
  -- The rest of the block may use what holds of the world that was read.
  pub Keeps-gets :
      {A B : Type 0} (g : World → A) (f : A → M World B)
      → ((a : A) (w : World) → P w → a ≡ g w → Keeps P (f a))
      → Keeps P (gets g >>= f)
  Keeps-gets g f kf = record { at = λ w t b h e. (kf (g w) w h refl).at w t b h e }

  pub Keeps-read : {A : Type 0} (g : World → A) → Keeps P (gets g)
  Keeps-read g = record { at = λ w t a h e. subst P (ground (arith, e)) h }

  -- The rest of the block may use the value that an access gave.
  pub Keeps-bind_access :
      {A B : Type 0} (o : Option A) (f : A → M World B)
      → ((a : A) → o ≡ some a → Keeps P (f a))
      → Keeps P (access o >>= f)
  Keeps-bind_access none f kf = record { at = λ w t b h e. cc }
  Keeps-bind_access (some a) f kf = record { at = λ w t b h e. (kf a refl).at w t b h e }

  pub Keeps-modify : (f : World → World) → ((w : World) → P w → P (f w)) → Keeps P (modify f)
  Keeps-modify f keep = record { at = λ w t a h e. moved w t a e (keep w h) }
    where
      moved : (w t : World) (a : Unit {0}) → modify f w ≡ some (a, t) → P (f w) → P t
      moved w t a e h = subst P (ground (arith, e)) h

-- A predicate that does not look at ERROR is kept by code whose only global it is.
module _ {P : World → Type 0}
    (blind : (w : World) (e : Error) → P w → P (record w { error = e })) where
  pub Keeps-run_exec : {A : Type 0} (m : Exec A) → Keeps P (run_exec m)
  Keeps-run_exec {A} m = record { at = λ w t a h e. step w t a h (m w.error) e }
    where
      step :
          (w t : World) (a : A)
          → P w
          → (r : Option (A × Error))
          → (elim r as (λ _. Option (A × World)) [
            | none ↦ none
            | some (a, e) ↦ some (a, record w { error = e })
          ])
            ≡ some (a, t)
          → P t
      step w t a h none e = cc
      step w t a h (some (b, er)) e =
          subst P (let q : record w { error = er } ≡ t = cc in q) (blind w er h)

  -- The rest of the block may use what `m` yields.
  pub Keeps-bind_exec :
      {A B : Type 0} {Q : A → Type 0} (m : Exec A) (f : A → M World B)
      → Yields Q m
      → ((a : A) → Q a → Keeps P (f a))
      → Keeps P (run_exec m >>= f)
  Keeps-bind_exec {A} {Q} m f ym kf =
      Keeps-bind_at (run_exec m) f (Keeps-run_exec m)
        (λ w t a h e. kf a (yielded w t a (m w.error) refl e))
    where
      yielded :
          (w t : World) (a : A)
          → (r : Option (A × Error)) → m w.error ≡ r
          → (elim r as (λ _. Option (A × World)) [
            | none ↦ none
            | some (a, e) ↦ some (a, record w { error = e })
          ])
            ≡ some (a, t)
          → Q a
      yielded w t a none h e = cc
      yielded w t a (some (b, er)) h e =
          subst Q (let q : b ≡ a = ground (arith, e) in q) (ym.at w.error er b h)
