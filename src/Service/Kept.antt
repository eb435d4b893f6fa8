-- ===== src/Service/Kept.antt =====
-- What an action keeps, put together from what its parts keep. It models no file of the program.
use energy_optimiser.Lp.Fallback.{Attempt, returned, raised}
use energy_optimiser.Service.{World, Action, after, ◌>>=◌, ◌>>◌}

module _ (I : World → Type 0) where
  -- Also where it raises.
  abbrev pub Keeps {ℓ} : {A : Type ℓ} → Action A → Type 0
  Keeps m = (w : World) → I w → I (m w).1

  module _ {ℓ κ} {A : Type ℓ} {B : Type κ} where
    pub after_keeps :
        (o : Attempt A × World) (f : A → Action B)
        → I o.1
        → ((a : A) → Keeps (f a))
        → I (after o f).1
    after_keeps (returned a, w) f i k = k a w i
    after_keeps (raised, w) f i k = i

    pub bind-Keeps :
        (m : Action A) (f : A → Action B) → Keeps m → ((a : A) → Keeps (f a)) → Keeps (m >>= f)
    bind-Keeps m f h k w i = after_keeps (m w) f (h w i) k

    pub then-Keeps : (m : Action A) (f : Action B) → Keeps m → Keeps f → Keeps (m >> f)
    then-Keeps m f h k w i = after_keeps (m w) (λ _. f) (h w i) (λ _. k)
