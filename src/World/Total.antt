-- ===== src/World/Total.antt =====
-- Runs of the client's code that return, where it reads and writes the globals.
use ipk2024_projekt.Base.{Any, M, Returns, arith, refl, ◌>>=◌, ◌≡◌}
use ipk2024_projekt.Error.{Error, Exec}
use ipk2024_projekt.World.{World, gets, modify, run_exec}

module _ {P : World → Type 0} {B : Type 0} {Q : B → Type 0} where
  -- The rest of the block may use what holds of the world that was read.
  pub Returns-gets :
      {A : Type 0} (g : World → A) (f : A → M World B)
      → ((a : A) (w : World) → P w → a ≡ g w → Returns P Q (f a))
      → Returns P Q (gets g >>= f)
  Returns-gets g f rf = record { at = λ w h. (rf (g w) w h refl).at w h }

  -- A predicate that does not look at ERROR is kept by code whose only global it is.
  pub Returns-run_exec :
      (m : Exec B)
      → ((w : World) (e : Error) → P w → P (record w { error = e }))
      → Returns Any Q m
      → Returns P Q (run_exec m)
  Returns-run_exec m blind r = record {
    at = λ w h.
        let (b, e, ran, any, q) = r.at w.error tt in
        (b, record w { error = e }, ground (arith, ran), blind w e h, q);
  }

pub Returns-modify :
    {P : World → Type 0} (f : World → World)
    → ((w : World) → P w → P (f w))
    → Returns P Any (modify f)
Returns-modify f keep = record { at = λ w h. (tt, f w, refl, keep w h, tt) }
