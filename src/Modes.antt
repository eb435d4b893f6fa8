-- ===== src/Modes.antt =====
-- src/optimiser/modes.py: the user-strategy modes, their file and the view of them that the LP
-- takes. Instants are microseconds in UTC, numbers thousandths. Python's json and datetime modules
-- and its `dict` constructor are an argument. A write of the file is taken to succeed.
pub mod Values
pub mod Restart
pub mod Expiry
pub mod Upkeep
pub mod Windows
use Prim.Native.String.{String}
use text.Mathlib.Text.{◌==◌ as str_eq}
use energy_optimiser.Prelude.{
  ℕ, zero, Bool, true, false, ◌||◌, Option, none, some, List, [], ◌∷◌, ◌++◌, map, ℤ, pos, leb, ltb,
  leb_ℤ, if◌then◌else◌,
}
use Values.{
  Json, null, boolean, number, str, array, object, nil, Fields, end, field, Result, ok, caught,
  uncaught, ◌>>=◌, subscript, get_or_null, as_number, find, put, remove,
}

pub data ModeKind : Type 0 where
  buy conserve : ModeKind

abbrev pub name : ModeKind → String
name buy = "buy"
name conserve = "conserve"

-- What `datetime.fromisoformat` returns: with a time zone, at an instant, or without one.
pub data Datetime : Type 0 where
  aware naive : ℕ → Datetime

-- An active mode, after `__post_init__` has accepted it.
pub record ActiveMode : Type 0 where
  pub kind : ModeKind
  pub end_at : Option ℕ
  pub params : Fields
  pub activated_at : ℕ
  pub source : Json

pub record ModeOverrides : Type 0 where
  pub buy_active_at : List Bool
  pub buy_ceiling_c_per_kwh : Json
  pub conserve_active_at : List Bool
  pub conserve_floor_c_per_kwh : Json
  pub buy_soc_cutoff_pct : Json

pub data Reason : Type 0 where
  service_started_after_end_at user_cancelled window_ended soc_reached : Reason

pub data Event : Type 0 where
  mode_activated : ActiveMode → Event
  mode_expired : String → Reason → Event

pub data File : Type 0 where
  absent unreadable : File
  contents : String → File

abbrev pub Modes : Type 0
Modes = List (String × ActiveMode)

pub record ModeManager : Type 0 where
  pub modes : Modes
  pub file : File

abbrev pub Outcome : Type 0
Outcome = ModeManager × List Event

-- `isoformat`, `fromisoformat` (none for a ValueError), `dict(v)` for a value that is no JSON
-- object, `json.dumps` and `json.loads` (none for a ValueError).
pub record Python : Type 0 where
  pub isoformat : ℕ → String
  pub fromisoformat : String → Option Datetime
  pub dict_of : Json → Result Fields
  pub dumps : Json → String
  pub loads : String → Option Json

-- The test of `self.kind not in _KINDS`.
abbrev pub kind_of : Json → Result ModeKind
kind_of (str s) =
    if str_eq s "buy" then ok buy else if str_eq s "conserve" then ok conserve else caught
kind_of _ = caught

abbrev pub instant : Datetime → Result ℕ
instant (aware t) = ok t
instant (naive _) = caught

abbrev pub instant_or_none : Option Datetime → Result (Option ℕ)
instant_or_none none = ok none
instant_or_none (some dt) = do t ← instant dt; ok (some t)

-- `__post_init__`: the kind, then the two times.
unfoldable pub construct : Json → Option Datetime → Fields → Datetime → Json → Result ActiveMode
construct raw_kind raw_end params raw_activated source = do
  kind ← kind_of raw_kind
  end_at ← instant_or_none raw_end
  activated_at ← instant raw_activated
  ok (record {
    kind = kind;
    end_at = end_at;
    params = params;
    activated_at = activated_at;
    source = source;
  })

unfoldable pub empty : List ℕ → ModeOverrides
empty slots = record {
  buy_active_at = map (λ _. false) slots;
  buy_ceiling_c_per_kwh = null;
  conserve_active_at = map (λ _. false) slots;
  conserve_floor_c_per_kwh = null;
  buy_soc_cutoff_pct = null;
}

abbrev pub any : List Bool → Bool
any [] = false
any (b ∷ bs) = b || any bs

-- `end_at is not None and end_at <= now`
abbrev pub is_over : ℕ → Option ℕ → Bool
is_over now none = false
is_over now (some t) = leb t now

abbrev pub expired : ℕ → Modes → List String
expired now [] = []
expired now ((k, m) ∷ d) =
    let rest = expired now d in if is_over now m.end_at then k ∷ rest else rest

abbrev pub values : Modes → List ActiveMode
values = map (λ (_, m). m)

-- The mode that the last entry of a kind holds in `{m.kind: m for m in active}`.
abbrev pub same_kind : ModeKind → ModeKind → Bool
same_kind buy buy = true
same_kind conserve conserve = true
same_kind _ _ = false

abbrev pub last_of : ModeKind → List ActiveMode → Option ActiveMode → Option ActiveMode
last_of kind [] found = found
last_of kind (m ∷ ms) found = last_of kind ms (if same_kind m.kind kind then some m else found)

-- `mode is not None and (mode.end_at is None or slot < mode.end_at)`
abbrev pub covers : Option ActiveMode → ℕ → Bool
covers none slot = false
covers (some m) slot = elim m.end_at [ none ↦ true | some t ↦ ltb slot t ]

abbrev pub param : String → Option ActiveMode → Result Json
param key none = ok null
param key (some m) = subscript key m.params

abbrev pub param_or_null : String → Option ActiveMode → Json
param_or_null key none = null
param_or_null key (some m) = get_or_null key m.params

abbrev pub is_none : Json → Bool
is_none null = true
is_none _ = false

-- `(raw or {}).items()`: a false value stands for no entries, any other must be an object.
abbrev pub entries : Json → Result Fields
entries null = ok end
entries (boolean false) = ok end
entries (number (pos zero)) = ok end
entries (str String.[]) = ok end
entries (array nil) = ok end
entries (object fields) = ok fields
entries _ = uncaught

-- The loop of `active` over the expired kinds.
unfoldable pub drop : List String → Modes → Modes × List Event
drop [] modes = (modes, [])
drop (k ∷ ks) modes =
    let (left, events) = drop ks (remove k modes) in (left, mode_expired k window_ended ∷ events)

module _ (P : Python) where
  abbrev pub end_json : Option ℕ → Json
  end_json none = null
  end_json (some t) = str (P.isoformat t)

  unfoldable pub to_dict : ActiveMode → Json
  to_dict m = object (
      field "kind" (str (name m.kind)) (
        field "end_at" (end_json m.end_at) (
          field "params" (object m.params) (
            field "activated_at" (str (P.isoformat m.activated_at))
              (field "source" m.source end)))))

  -- `datetime.fromisoformat(v)`, a TypeError for what is no text.
  abbrev parse_time : Json → Result Datetime
  parse_time (str s) = elim (P.fromisoformat s) [ none ↦ caught | some dt ↦ ok dt ]
  parse_time _ = uncaught

  abbrev parse_end : Json → Result (Option Datetime)
  parse_end null = ok none
  parse_end v = do dt ← parse_time v; ok (some dt)

  abbrev dict : Json → Result Fields
  dict (object fields) = ok fields
  dict v = P.dict_of v

  unfoldable pub from_dict : Json → Result ActiveMode
  unfolding construct
  from_dict (object d) = do
    raw_end ← subscript "end_at" d
    kind ← subscript "kind" d
    end_at ← parse_end raw_end
    raw_params ← subscript "params" d
    params ← dict raw_params
    raw_activated ← subscript "activated_at" d
    activated_at ← parse_time raw_activated
    source ← subscript "source" d
    construct kind end_at params activated_at source
  from_dict _ = uncaught

  abbrev pub payload : Modes → Fields
  payload [] = end
  payload ((k, m) ∷ d) = field k (to_dict m) (payload d)

  unfoldable pub persist : ModeManager → ModeManager
  persist m = record m { file = contents (P.dumps (object (payload m.modes))) }

  -- The loop of `_load` over the entries; the last part says whether one was dropped as over. The
  -- step is given the mode that was read, and the loop over the rest.
  abbrev pub Loaded : Type 0
  Loaded = Result (Modes × List Event × Bool)

  abbrev pub load_step : ℕ → String → Result ActiveMode → (Modes → Loaded) → Modes → Loaded
  load_step now key uncaught rest modes = uncaught
  load_step now key caught rest modes = rest modes
  load_step now key (ok m) rest modes =
      if is_over now m.end_at
      then (do
        (loaded, events, dropped) ← rest modes
        ok (loaded, mode_expired key service_started_after_end_at ∷ events, true))
      else rest (put key m modes)

  unfoldable pub load_entries : ℕ → Fields → Modes → Loaded
  load_entries now end modes = ok (modes, [], false)
  load_entries now (field key null rest) modes = load_entries now rest modes
  load_entries now (field key v rest) modes =
      load_step now key (from_dict v) (load_entries now rest) modes

  -- `__init__` with `_load`: nothing is loaded from a file that is missing, cannot be read or is
  -- no JSON, and the file is written again only if an entry was dropped as over.
  unfoldable pub load : ℕ → File → Result Outcome
  unfolding load_entries persist
  load now (contents s) = elim (P.loads s) [
    | none ↦ ok (record { modes = []; file = contents s }, [])
    | some raw ↦ do
      fields ← entries raw
      (modes, events, dropped) ← load_entries now fields []
      let m : ModeManager = record { modes = modes; file = contents s }
      ok (if dropped then persist m else m, events)
  ]
  load now file = ok (record { modes = []; file = file }, [])

  unfoldable pub activate : ActiveMode → ModeManager → Outcome
  activate mode m =
      (persist (record m { modes = put (name mode.kind) mode m.modes }), mode_activated mode ∷ [])

  unfoldable pub cancel : String → ModeManager → Outcome × Bool
  cancel kind m = elim (find kind m.modes) [
    | none ↦ ((m, []), false)
    | some _ ↦ (
      (persist (record m { modes = remove kind m.modes }), mode_expired kind user_cancelled ∷ []),
      true,
    )
  ]

  unfoldable pub active : ℕ → ModeManager → Outcome × List ActiveMode
  active now m = elim (expired now m.modes) [
    | [] ↦ ((m, []), values m.modes)
    | k ∷ ks ↦
        let (left, events) = drop (k ∷ ks) m.modes in
        ((persist (record m { modes = left }), events), values left)
  ]

  -- The pruning stands, also where a parameter is missing.
  unfoldable pub to_overrides : ℕ → List ℕ → ModeManager → Outcome × Result ModeOverrides
  to_overrides now slots m =
      let (outcome, modes) = active now m in
      let bought = last_of buy modes none in
      let conserved = last_of conserve modes none in
      (
        outcome,
        do
          ceiling ← param "ceiling_c_per_kwh" bought
          floor ← param "floor_c_per_kwh" conserved
          ok (record {
            buy_active_at = map (covers bought) slots;
            buy_ceiling_c_per_kwh = ceiling;
            conserve_active_at = map (covers conserved) slots;
            conserve_floor_c_per_kwh = floor;
            buy_soc_cutoff_pct = param_or_null "soc_cutoff_pct" bought;
          }),
      )

  -- The comparison with a cutoff that is not None: a TypeError unless it is a number or a bool.
  unfoldable pub reach : ℤ → Option ℤ → ModeManager → Result Outcome
  reach current_soc_pct none m = uncaught
  reach current_soc_pct (some cutoff) m =
      if leb_ℤ cutoff current_soc_pct
      then ok
          (persist (record m { modes = remove "buy" m.modes }), mode_expired "buy" soc_reached ∷ [])
      else ok (m, [])

  unfoldable pub prune_soc_reached : ℤ → ModeManager → Result Outcome
  unfolding reach
  prune_soc_reached current_soc_pct m = elim (find "buy" m.modes) [
    | none ↦ ok (m, [])
    | some mode ↦
        let cutoff = get_or_null "soc_cutoff_pct" mode.params in
        if is_none cutoff then ok (m, []) else reach current_soc_pct (as_number cutoff) m
  ]
