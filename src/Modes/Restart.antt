-- ===== src/Modes/Restart.antt =====
-- What a restart of the service finds in the file that it wrote.
use Prim.Native.String.{String}
use text.Mathlib.TextEquality.{eq_iff}
use energy_optimiser.Prelude.{
  ℕ, ◌≡◌, refl, Bool, false, ◌||◌, Option, none, some, List, [], ◌∷◌, map, arith, if◌then◌else◌,
  keep, not,
}
use energy_optimiser.Modes.Values.{
  str, Json, object, Fields, field, ok, put, find, find-put, NodupKeys, get,
}
use energy_optimiser.Modes.{
  ModeKind, buy, conserve, ActiveMode, aware, Modes, ModeManager, Event, mode_expired,
  service_started_after_end_at, Python, is_over, expired, to_dict, from_dict, payload, persist,
  load_entries, load_step, load, parse_time, parse_end,
}

-- What `to_dict` and `from_dict` rely on: an instant is read back from the text that it is
-- written as, with its time zone.
pub record ReadsTimes (P : Python) : Type 0 where
  pub fromisoformat-isoformat : (t : ℕ) → P.fromisoformat (P.isoformat t) ≡ some (aware t)

-- The modes that are not over, and the events that tell of the others.
abbrev pub unexpired : ℕ → Modes → Modes
unexpired now = keep (λ (k, m). not (is_over now m.end_at))

abbrev pub drops : ℕ → Modes → List Event
drops now modes = map (λ k. mode_expired k service_started_after_end_at) (expired now modes)

abbrev pub put_all : Modes → Modes → Modes
put_all [] acc = acc
put_all ((k, m) ∷ d) acc = put_all d (put k m acc)

abbrev any_over : ℕ → Modes → Bool
any_over now [] = false
any_over now ((k, m) ∷ d) = is_over now m.end_at || any_over now d

find-put_all :
    (j : String) (d acc : Modes)
    → NodupKeys d
    → find j (put_all d acc) ≡ (elim (find j d) [ none ↦ find j acc | some m ↦ some m ])
unfolding find
find-put_all j [] acc u = refl
find-put_all j ((k, m) ∷ d) acc (fresh, u) =
    ground (arith, find-put_all j d (put k m acc) u, find-put k j m acc, eq_iff k j)

pub find-unexpired :
    (now : ℕ) (j : String) (d : Modes) → find j d ≡ none → find j (unexpired now d) ≡ none
unfolding find
find-unexpired now j [] h = refl
find-unexpired now j ((k, m) ∷ d) h = ground (arith, find-unexpired now j d)

pub unexpired-NodupKeys : (now : ℕ) (d : Modes) → NodupKeys d → NodupKeys (unexpired now d)
unexpired-NodupKeys now [] u = tt
unexpired-NodupKeys now ((k, m) ∷ d) (fresh, u) =
    ground (arith, find-unexpired now k d fresh, unexpired-NodupKeys now d u)

module _ (P : Python) (R : ReadsTimes P) where
  parse_time-isoformat : (t : ℕ) → parse_time P (str (P.isoformat t)) ≡ ok (aware t)
  parse_time-isoformat t = rw (R.fromisoformat-isoformat t, parse_time)

  parse_end-isoformat : (t : ℕ) → parse_end P (str (P.isoformat t)) ≡ ok (some (aware t))
  parse_end-isoformat t = rw (parse_time-isoformat t, parse_end)

  from_fields :
      (kind : ModeKind) (end_at : Option ℕ) (params : Fields) (t : ℕ) (source : Json)
      → let m : ActiveMode = record {
        kind = kind;
        end_at = end_at;
        params = params;
        activated_at = t;
        source = source;
      } in
        from_dict P (to_dict P m) ≡ ok m
  unfolding from_dict to_dict get
  from_fields buy none params t source = rw (parse_time-isoformat t)
  from_fields buy (some e) params t source = rw (parse_end-isoformat e, parse_time-isoformat t)
  from_fields conserve none params t source = rw (parse_time-isoformat t)
  from_fields conserve (some e) params t source = rw (parse_end-isoformat e, parse_time-isoformat t)

  -- A mode is read back from its dictionary.
  from_dict-to_dict : (m : ActiveMode) → from_dict P (to_dict P m) ≡ ok m
  from_dict-to_dict m = from_fields m.kind m.end_at m.params m.activated_at m.source

  load_entries-to_dict :
      (now : ℕ) (k : String) (m : ActiveMode) (rest : Fields) (acc : Modes)
      → load_entries P now (field k (to_dict P m) rest) acc
        ≡ load_step P now k (from_dict P (to_dict P m)) (load_entries P now rest) acc
  unfolding load_entries to_dict
  load_entries-to_dict now k m rest acc = refl

  load_entries-payload :
      (now : ℕ) (d acc : Modes)
      → load_entries P now (payload P d) acc
        ≡ ok (put_all (unexpired now d) acc, drops now d, any_over now d)
  load_entries-payload now [] acc = unfold load_entries in refl
  load_entries-payload now ((k, m) ∷ d) acc = ground (
    arith,
    load_entries-to_dict now k m (payload P d) acc,
    from_dict-to_dict m,
    load_entries-payload now d acc,
    load_entries-payload now d (put k m acc),
  )

  -- What `_load` makes of the entries that it keeps.
  abbrev reloaded : ℕ → ModeManager → ModeManager
  reloaded now m =
      let loaded : ModeManager = record (persist P m) {
        modes = put_all (unexpired now m.modes) [];
      } in
      if any_over now m.modes then persist P loaded else loaded

  reloaded-find :
      (now : ℕ) (m : ModeManager) (k : String)
      → NodupKeys m.modes
      → find k (reloaded now m).modes ≡ find k (unexpired now m.modes)
  unfolding persist find
  reloaded-find now m k u =
      ground (arith, find-put_all k (unexpired now m.modes) [] (unexpired-NodupKeys now m.modes u))

  -- A manager whose keys are distinct, restarted at `now` from the file that its last change
  -- wrote, has exactly the modes that are not over, tells of each of the others in order, and
  -- fails with no exception. What `json.dumps` wrote is taken to be read back by `json.loads`.
  pub load-persist :
      (now : ℕ) (m : ModeManager)
      → NodupKeys m.modes
      → P.loads (P.dumps (object (payload P m.modes))) ≡ some (object (payload P m.modes))
      → (restarted : ModeManager) × (load P now (persist P m).file
          ≡ ok (restarted, drops now m.modes))
        × ((k : String) → find k restarted.modes ≡ find k (unexpired now m.modes))
  unfolding load persist
  load-persist now m u reads = (
    reloaded now m,
    rw (reads, load_entries-payload now m.modes []),
    λ k. reloaded-find now m k u,
  )
