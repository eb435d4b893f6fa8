-- ===== src/Lp/Problem/Results.antt =====
-- What holds of the result of a chain of lookups, if there is one.
use energy_optimiser.Prelude.{Option, none, some, ◌≡◌, subst}
use energy_optimiser.Lp.Slots.{◌>>=◌}

module _ {ℓ} {A : Type ℓ} where
  abbrev pub Yields : (A → Type 0) → Option A → Type 0
  Yields P none = Unit
  Yields P (some a) = P a

  pub yielded : (P : A → Type 0) (x : Option A) (a : A) → Yields P x → x ≡ some a → P a
  yielded P none a h e = cc
  yielded P (some b) a h e = let same : b ≡ a = cc in subst P same h

module _ {ℓ κ} {A : Type ℓ} {B : Type κ} where
  pub next :
      (P : A → Type 0) (Q : B → Type 0) (x : Option A) (f : A → Option B)
      → Yields P x
      → ((a : A) → P a → Yields Q (f a))
      → Yields Q (x >>= f)
  next P Q none f h k = tt
  next P Q (some a) f h k = k a h

  pub any :
      (Q : B → Type 0) (x : Option A) (f : A → Option B)
      → ((a : A) → Yields Q (f a))
      → Yields Q (x >>= f)
  any Q none f k = tt
  any Q (some a) f k = k a
