-- ===== src/Modes/Expiry.antt =====
-- What the operations of the manager keep, and which modes `active` drops.
use Prim.Native.String.{String}
use text.Mathlib.TextEquality.{eq_iff}
use energy_optimiser.Prelude.{ℕ, ◌≡◌, ◌≢◌, refl, ap, none, List, [], ◌∷◌, map, arith, All}
use energy_optimiser.Modes.Values.{find, put, remove, NodupKeys}
use energy_optimiser.Modes.{
  name, ActiveMode, Modes, ModeManager, mode_expired, window_ended, Python, expired, values,
  persist, drop, active,
}
use energy_optimiser.Modes.Restart.{unexpired}

-- Every mode is stored under the name of its kind, and no kind twice.
abbrev pub IsNamed : Modes → Type 0
IsNamed d = All (λ (k, m). k ≡ name m.kind) d

pub record IsKeyed (m : ModeManager) : Type 0 where
  pub distinct : NodupKeys m.modes
  pub named : IsNamed m.modes

pub put-IsNamed : (m : ActiveMode) (d : Modes) → IsNamed d → IsNamed (put (name m.kind) m d)
unfolding put
put-IsNamed m [] h = (refl, tt)
put-IsNamed m ((k, w) ∷ d) (e, h) = ground (arith, eq_iff k (name m.kind), put-IsNamed m d h)

pub remove-IsNamed : (k : String) (d : Modes) → IsNamed d → IsNamed (remove k d)
unfolding remove
remove-IsNamed k [] h = tt
remove-IsNamed k ((j, w) ∷ d) (e, h) = ground (arith, remove-IsNamed k d h)

-- The keys of `ks` other than `k` leave an entry of `k` alone.
drop-cons :
    (ks : List String) (k : String) (m : ActiveMode) (d : Modes)
    → All (λ j. k ≢ j) ks
    → (drop ks ((k, m) ∷ d)).0 ≡ (k, m) ∷ (drop ks d).0
unfolding drop remove
drop-cons [] k m d h = refl
drop-cons (j ∷ ks) k m d (n, h) = ground (arith, eq_iff k j, drop-cons ks k m (remove j d) h)

expired-fresh :
    (now : ℕ) (k : String) (d : Modes) → find k d ≡ none → All (λ j. k ≢ j) (expired now d)
unfolding find
expired-fresh now k [] h = tt
expired-fresh now k ((j, m) ∷ d) h = ground (arith, eq_iff j k, expired-fresh now k d)

drop-expired : (now : ℕ) (d : Modes) → NodupKeys d → (drop (expired now d) d).0 ≡ unexpired now d
unfolding drop remove
drop-expired now [] u = refl
drop-expired now ((k, m) ∷ d) (fresh, u) = ground (
  arith,
  eq_iff k k,
  drop-expired now d u,
  drop-cons (expired now d) k m d (expired-fresh now k d fresh),
)

drop_events :
    (ks : List String) (d : Modes) → (drop ks d).1 ≡ map (λ k. mode_expired k window_ended) ks
unfolding drop
drop_events [] d = refl
drop_events (k ∷ ks) d = ap (λ es. mode_expired k window_ended ∷ es) (drop_events ks (remove k d))

unexpired_all : (now : ℕ) (d : Modes) → expired now d ≡ [] → unexpired now d ≡ d
unexpired_all now [] e = refl
unexpired_all now ((k, m) ∷ d) e = ground (arith, unexpired_all now d)

pub unexpired-IsNamed : (now : ℕ) (d : Modes) → IsNamed d → IsNamed (unexpired now d)
unexpired-IsNamed now [] h = tt
unexpired-IsNamed now ((k, m) ∷ d) (e, h) = ground (arith, unexpired-IsNamed now d h)

module _ (P : Python) where
  -- `active` keeps and returns exactly the modes whose end is none or lies after `now`, tells of
  -- each of the others once, in order, and writes the file only if there is one of them.
  pub active_lem :
      (now : ℕ) (m : ModeManager)
      → NodupKeys m.modes
      → ((active P now m).0.0.modes ≡ unexpired now m.modes)
        × ((active P now m).1 ≡ values (unexpired now m.modes))
        × ((active P now m).0.1 ≡ map (λ k. mode_expired k window_ended) (expired now m.modes))
        × (expired now m.modes ≡ [] → (active P now m).0.0 ≡ m)
        × (expired now m.modes ≢ [] → persist P (active P now m).0.0 ≡ (active P now m).0.0)
  unfolding active persist
  active_lem now m u = ground (
    arith,
    drop-expired now m.modes u,
    drop_events (expired now m.modes) m.modes,
    unexpired_all now m.modes,
  )
