-- ===== src/Lp/Fallback/Relays.antt =====
-- Which relays the fallback opens, whatever its calls return.
use Prim.Native.String.{String}
use mathlib.Core.List.{append-nil, append_assoc}
use energy_optimiser.Prelude.{
  ◌≡◌, refl, ◌∙◌, ap, Bool, false, Option, List, [], ◌∷◌, ◌++◌, ℤ, if◌then◌else◌, Bool-cases, inl,
  inr,
}
use energy_optimiser.Lp.Runtime.{FallbackReason}
use energy_optimiser.Lp.Fallback.{
  Attempt, returned, raised, Plant, Controller, succeeded, note_relay, open_relays,
  trigger_fallback,
}

-- The relays that are to open: those of the controllers that have one.
abbrev pub relay_ids : List Controller → List String
relay_ids [] = []
relay_ids (ctl ∷ ctls) =
    let rest = relay_ids ctls in if ctl.has_relay then ctl.load_id ∷ rest else rest

-- The flag that is reported for a call: its answer, or false if it raised.
abbrev pub Answers : Attempt Bool → Bool → Type 0
Answers (returned b) flag = flag ≡ b
Answers raised flag = flag ≡ false

succeeded-Answers : (o : Attempt Bool) → Answers o (succeeded o)
succeeded-Answers (returned b) = refl
succeeded-Answers raised = refl

module _ (P : Plant) where
  -- Every one of these relays is told to open, in order, whatever the calls before it did.
  abbrev pub command_all : List String → P.State → P.State
  command_all [] s = s
  command_all (id ∷ ids) s = command_all ids (P.set_relay id false s).1

  abbrev pub unless_raised : Attempt Bool → String → List String
  unless_raised (returned _) id = id ∷ []
  unless_raised raised id = []

  -- Those whose call did not raise.
  abbrev pub acknowledged : List String → P.State → List String
  acknowledged [] s = []
  acknowledged (id ∷ ids) s =
      unless_raised (P.set_relay id false s).0 id ++ acknowledged ids (P.set_relay id false s).1

  note_relay-append :
      (o : Attempt Bool) (id : String) (ids : List String)
      → note_relay o id ids ≡ ids ++ unless_raised o id
  note_relay-append (returned _) id ids = refl
  note_relay-append raised id ids = rw append-nil

  open_relays_lem :
      (ctls : List Controller) (ids : List String) (s : P.State)
      → open_relays P ctls (ids, s)
        ≡ (ids ++ acknowledged (relay_ids ctls) s, command_all (relay_ids ctls) s)
  unfolding open_relays
  open_relays_lem [] ids s = rw append-nil
  open_relays_lem (ctl ∷ ctls) ids s = elim (Bool-cases ctl.has_relay) [
    | inl has ↦
        rw (has, open_relays) (open_relays_lem ctls _ _ ∙ rw (note_relay-append, append_assoc) refl)
    | inr lacks ↦ rw (lacks, open_relays) (open_relays_lem ctls ids s)
  ]

  -- The fallback sets the inverter first and then tells every relay to open, in order, also after
  -- calls that fail or raise. It reports the inverter's answer, false if the call raised, and the
  -- relays whose call did not raise; the event carries the same.
  pub trigger_fallback_lem :
      (ctls : List Controller) (cause : FallbackReason) (commanded measured price : Option ℤ)
      (block : Bool) (extra : Option (List (String × String))) (s : P.State)
      → let after = (P.set_fallback price block s).1 in
        let r = trigger_fallback P ctls cause commanded measured price block extra s in
        (r.2 ≡ command_all (relay_ids ctls) after)
        × Answers (P.set_fallback price block s).0 r.0.set_self_consume
        × (r.0.relays_opened ≡ acknowledged (relay_ids ctls) after)
        × (r.1.relays_opened ≡ r.0.relays_opened)
        × (r.1.set_self_consume ≡ r.0.set_self_consume)
        × (r.0.reason ≡ cause)
  unfolding trigger_fallback
  trigger_fallback_lem ctls cause commanded measured price block extra s =
      let e = open_relays_lem ctls [] (P.set_fallback price block s).1 in
      (
        ap (λ p. p.1) e,
        succeeded-Answers (P.set_fallback price block s).0,
        ap (λ p. p.0) e,
        refl,
        refl,
        refl,
      )
