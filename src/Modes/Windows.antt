-- ===== src/Modes/Windows.antt =====
-- The view of the modes that the LP takes.
use Prim.Native.String.{String}
use text.Mathlib.Text.{◌==◌ as str_eq}
use text.Mathlib.TextEquality.{eq_iff}
use energy_optimiser.Prelude.{
  ℕ, ◌≤◌, ◌≡◌, ◌∙◌, inl, inr, refl, true, Option, none, some, List, [], ◌∷◌, map, ℤ, ◌≤ℤ◌, leb_ℤ,
  arith, if◌then◌else◌, All, Bool-cases,
}
use energy_optimiser.Modes.Values.{find, remove, NodupKeys, find-remove, ok, as_number, get_or_null}
use energy_optimiser.Modes.{
  Event, ModeKind, buy, conserve, name, ActiveMode, Modes, ModeManager, ModeOverrides, Python,
  is_over, same_kind, values, last_of, covers, active, to_overrides, prune_soc_reached, Event,
  mode_expired, soc_reached, persist,
}
use energy_optimiser.Modes.Restart.{unexpired, find-unexpired, unexpired-NodupKeys}
use energy_optimiser.Modes.Expiry.{IsNamed, IsKeyed, active_lem, unexpired-IsNamed}

abbrev or_found : Option ActiveMode → Option ActiveMode → Option ActiveMode
or_found none found = found
or_found (some m) found = some m

str_eq-name : (a b : ModeKind) → str_eq (name a) (name b) ≡ same_kind a b
str_eq-name buy buy = refl
str_eq-name buy conserve = refl
str_eq-name conserve buy = refl
str_eq-name conserve conserve = refl

eq_of_same_kind : (a b : ModeKind) → same_kind a b ≡ true → a ≡ b
eq_of_same_kind a b h = ground arith

-- By kind, the last mode is the one that is stored under the kind's name.
last_of-find :
    (kind : ModeKind) (d : Modes) (found : Option ActiveMode)
    → NodupKeys d
    → IsNamed d
    → last_of kind (values d) found ≡ or_found (find (name kind) d) found
unfolding find
last_of-find kind [] found u h = refl
last_of-find kind ((k, m) ∷ d) found (fresh, u) (e, h) =
    let absent : find (name m.kind) d ≡ none = rw e at fresh in
    rw (e, str_eq-name)
      (elim (Bool-cases (same_kind m.kind kind)) [
        | inl is ↦
            let gone : find (name kind) d ≡ none = rw (eq_of_same_kind _ _ is) at absent in
            ground (arith, last_of-find kind d (some m) u h)
        | inr is_not ↦ ground (arith, last_of-find kind d found u h)
      ])

find-unexpired_lem :
    (now : ℕ) (k : String) (d : Modes)
    → NodupKeys d
    → find k (unexpired now d)
      ≡ (elim (find k d) [ none ↦ none | some m ↦ if is_over now m.end_at then none else some m ])
unfolding find
find-unexpired_lem now k [] u = refl
find-unexpired_lem now k ((j, m) ∷ d) (fresh, u) =
    ground (arith, eq_iff j k, find-unexpired_lem now k d u, find-unexpired now k d)

covers-unexpired :
    (now slot : ℕ) (k : String) (d : Modes)
    → NodupKeys d
    → now ≤ slot
    → covers (find k (unexpired now d)) slot ≡ covers (find k d) slot
covers-unexpired now slot k d u le = ground (arith, find-unexpired_lem now k d u)

map-covers-unexpired :
    (now : ℕ) (k : String) (d : Modes) (slots : List ℕ)
    → NodupKeys d
    → All (λ slot. now ≤ slot) slots
    → map (covers (find k (unexpired now d))) slots ≡ map (covers (find k d)) slots
map-covers-unexpired now k d [] u h = refl
map-covers-unexpired now k d (slot ∷ slots) u (le, h) =
    rw (covers-unexpired now slot k d u le, map-covers-unexpired now k d slots u h)

module _ (P : Python) where
  windows :
      (now : ℕ) (slots : List ℕ) (m : ModeManager) (kind : ModeKind)
      → IsKeyed m
      → All (λ slot. now ≤ slot) slots
      → map (covers (last_of kind (active P now m).1 none)) slots
        ≡ map (covers (find (name kind) m.modes)) slots
  windows now slots m kind h later =
      rw
        (
          (active_lem P now m h.distinct).1,
          last_of-find kind (unexpired now m.modes) none
              (unexpired-NodupKeys now m.modes h.distinct) (unexpired-IsNamed now m.modes h.named),
        )
        (or_none (find (name kind) (unexpired now m.modes))
          ∙ map-covers-unexpired now (name kind) m.modes slots h.distinct later)
    where
      or_none :
          (o : Option ActiveMode) → map (covers (or_found o none)) slots ≡ map (covers o) slots
      or_none none = refl
      or_none (some mode) = refl

  -- The masks that the plan of `to_overrides` holds: for slots that do not start before `now`, a
  -- slot is in the window of a kind exactly if a mode is stored under the kind's name that has no
  -- end or ends after the slot's start.
  pub to_overrides_windows :
      (now : ℕ) (slots : List ℕ) (m : ModeManager) {o : ModeOverrides}
      → IsKeyed m
      → All (λ slot. now ≤ slot) slots
      → (to_overrides P now slots m).1 ≡ ok o
      → (o.buy_active_at ≡ map (covers (find (name buy) m.modes)) slots)
        × (o.conserve_active_at ≡ map (covers (find (name conserve) m.modes)) slots)
  unfolding to_overrides
  to_overrides_windows now slots m h later e =
      ground (arith, windows now slots m buy h later, windows now slots m conserve h later)

  -- The manager after the SOC check.
  abbrev pruned : ℤ → ℤ → ModeManager → ModeManager
  pruned cutoff soc m =
      if leb_ℤ cutoff soc then persist P (record m { modes = remove "buy" m.modes }) else m

  prune_soc_reached_state :
      (soc cutoff : ℤ) (m : ModeManager) {mode : ActiveMode}
      → find "buy" m.modes ≡ some mode
      → as_number (get_or_null "soc_cutoff_pct" mode.params) ≡ some cutoff
      → (events : List Event) × (prune_soc_reached P soc m ≡ ok (pruned cutoff soc m, events))
  unfolding prune_soc_reached
  prune_soc_reached_state soc cutoff m stored limit =
      (if leb_ℤ cutoff soc then mode_expired "buy" soc_reached ∷ [] else [], ground arith)

  -- With a buy mode that has a cutoff, the SOC check succeeds. It removes the buy mode and no other
  -- if the SOC has reached the cutoff, and changes nothing if it has not.
  pub prune_soc_reached_lem :
      (soc cutoff : ℤ) (m : ModeManager) {mode : ActiveMode}
      → NodupKeys m.modes
      → find "buy" m.modes ≡ some mode
      → as_number (get_or_null "soc_cutoff_pct" mode.params) ≡ some cutoff
      → (m' : ModeManager) × ((events : List Event) × (prune_soc_reached P soc m ≡ ok (m', events)))
        × (cutoff ≤ℤ soc
            → (j : String) → find j m'.modes ≡ (if str_eq "buy" j then none else find j m.modes))
        × (¬ (cutoff ≤ℤ soc) → m' ≡ m)
  unfolding persist
  prune_soc_reached_lem soc cutoff m u stored limit = (
    pruned cutoff soc m,
    prune_soc_reached_state soc cutoff m stored limit,
    λ reached j. ground (arith, find-remove "buy" j m.modes u),
    λ below. ground arith,
  )
