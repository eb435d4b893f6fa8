-- ===== src/Shelly/Relay/Since.antt =====
-- Since when the relay is in its state.
use energy_optimiser.Prelude.{
  ℕ, ◌≡◌, ◌≢◌, refl, Bool, true, false, Option, none, some, List, [], ◌∷◌, ap, ◌∙◌, All,
}
use energy_optimiser.Shelly.Relay.{RelayState, changes, track_relay_state}

-- Observations in order, each with its instant.
abbrev pub observe : RelayState → List (ℕ × Bool) → RelayState
observe r [] = r
observe r ((now, on) ∷ seen) = observe (track_relay_state now on r) seen

changes-other : (last : Option Bool) (on : Bool) → last ≢ some on → changes last on ≡ true
changes-other none on h = refl
changes-other (some true) true h = elim (h refl) [ ]
changes-other (some true) false h = refl
changes-other (some false) true h = refl
changes-other (some false) false h = elim (h refl) [ ]

changes-same : (on : Bool) → changes (some on) on ≡ false
changes-same true = refl
changes-same false = refl

-- The same state again.
abbrev held : Bool → ℕ → RelayState
held on since = record { last_relay_state = some on; relay_state_since = some since }

observe-held :
    (on : Bool) (since : ℕ) (seen : List (ℕ × Bool))
    → All (λ o. o.1 ≡ on) seen
    → observe (held on since) seen ≡ held on since
unfolding track_relay_state
observe-held on since [] h = refl
observe-held on since ((now, on') ∷ seen) (same, rest) =
    rw (same, changes-same on) (observe-held on since seen rest)

turns :
    (now : ℕ) (on : Bool) (r : RelayState)
    → r.last_relay_state ≢ some on
    → track_relay_state now on r ≡ held on now
unfolding track_relay_state
turns now on r h = rw (changes-other r.last_relay_state on h) refl

-- A relay that is observed in another state at `now`, or for the first time, and in the same state
-- ever after, is in its state since `now`, however often it is observed.
pub observe_since :
    (r : RelayState) (now : ℕ) (on : Bool) (seen : List (ℕ × Bool))
    → r.last_relay_state ≢ some on
    → All (λ o. o.1 ≡ on) seen
    → (observe r ((now, on) ∷ seen)).relay_state_since ≡ some now
observe_since r now on seen h same =
    ap (λ q. q.relay_state_since)
      (ap (λ q. observe q seen) (turns now on r h) ∙ observe-held on now seen same)
