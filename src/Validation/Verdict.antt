-- ===== src/Validation/Verdict.antt =====
-- What a validation concludes: the corrected row, the verdict and the rejected fields.
use energy_optimiser.Prelude.{
  ◌≡◌, Option-cases, inl, inr, refl, sym, ap, ◌∙◌, true, false, Option, none, some, List, [], ◌∷◌,
  ℤ, ◌↔◌, arith,
}
use energy_optimiser.Validation.{
  Field, grid_kw, house_load_kw, soc_pct, outdoor_temp_c, same, Row, Bound, extended_bounds, Notes,
  no_notes, contains, Context, reject_outside, check_sensor, check_load, check_soc, check_bom,
  check_outlier, check_divergence, check_bounds, notes, is_empty, validate_telemetry,
}
use energy_optimiser.Validation.Accepted.{rejects, notes_overrides, accepted, Plausible}

-- A field's reading is in the corrected row exactly if the row has it and it is plausible: the
-- sensor is online for the grid's and the load's, the forecast data is not known to be older than
-- two hours for the outdoor temperature, and the reading lies within its bounds where it has
-- bounds.
pub validate_telemetry_lem :
    (row : Row) (c : Context) (f : Field) (v : ℤ)
    → (validate_telemetry row c).0 f ≡ some v ↔ (row f ≡ some v) × Plausible c f v
unfolding validate_telemetry
validate_telemetry_lem row c f v = rw (notes_overrides) (accepted row c f v)

corrected_none :
    (row : Row) (c : Context) (f : Field) → row f ≡ none → (validate_telemetry row c).0 f ≡ none
unfolding validate_telemetry
corrected_none row c f e = ground (arith, e)

-- Validating a corrected row again, in the same context, rejects no further reading.
pub validate_telemetry_again :
    (row : Row) (c : Context) (f : Field)
    → (validate_telemetry (validate_telemetry row c).0 c).0 f ≡ (validate_telemetry row c).0 f
validate_telemetry_again row c f = elim (Option-cases ((validate_telemetry row c).0 f)) [
  | inl e ↦ corrected_none (validate_telemetry row c).0 c f e ∙ sym e
  | inr (v, e) ↦
      (validate_telemetry_lem (validate_telemetry row c).0 c f v).1
        (e, ((validate_telemetry_lem row c f v).0 e).1)
      ∙ sym e
]

check_bounds_lists :
    (bs : List Bound) (row : Row) (n : Notes)
    → n.rejected ≡ n.overrides
    → (check_bounds bs row n).rejected ≡ (check_bounds bs row n).overrides
unfolding check_bounds
check_bounds_lists [] row n e = e
check_bounds_lists (b ∷ bs) row n e =
    check_bounds_lists bs row (reject_outside b (row b.field) n) (ground (arith, e))

-- The lists of rejected fields and of overridden ones agree.
abbrev Agree : Notes → Type 0
Agree n = n.rejected ≡ n.overrides

module _ (n : Notes) (e : Agree n) where
  load_lists : (load : Option ℤ) → Agree (check_load load n)
  unfolding check_load
  load_lists none = e
  load_lists (some v) = ground (arith, e)

  soc_lists : (soc : Option ℤ) → Agree (check_soc soc n)
  unfolding check_soc
  soc_lists none = e
  soc_lists (some v) = ground (arith, e)

  bom_lists : (temp age : Option ℤ) → Agree (check_bom temp age n)
  unfolding check_bom
  bom_lists none age = e
  bom_lists (some v) age = ground (arith, e)

  warning_lists :
      (load p95 grid shelly : Option ℤ)
      → Agree (check_divergence grid shelly (check_outlier load p95 n))
  unfolding check_divergence check_outlier
  warning_lists (some a) (some b) (some c) (some d) = ground (arith, e)
  warning_lists (some a) (some b) _ _ = ground (arith, e)
  warning_lists _ _ (some c) (some d) = ground (arith, e)
  warning_lists _ _ _ _ = ground (arith, e)

sensor_lists : (c : Context) → Agree (check_sensor c no_notes)
unfolding check_sensor
sensor_lists c = ground arith

notes_lists : (row : Row) (c : Context) → Agree (notes row c)
unfolding notes
notes_lists row c = check_bounds_lists extended_bounds row _ (
    warning_lists _
      (bom_lists _ (soc_lists _ (load_lists _ (sensor_lists c) (row house_load_kw)) (row soc_pct))
        (row outdoor_temp_c) c.bom_data_age)
      (row house_load_kw) c.rolling_p95 (row grid_kw) c.grid_kw_shelly)

is_empty-contains : (fs : List Field) → is_empty fs ≡ true → (f : Field) → contains fs f ≡ false
is_empty-contains [] e f = refl
is_empty-contains (_ ∷ _) e f = ground (arith, e)

none_contained : (fs : List Field) → ((f : Field) → contains fs f ≡ false) → is_empty fs ≡ true
unfolding same
none_contained [] h = refl
none_contained (g ∷ gs) h = ground (arith, h g)

nothing_absent :
    (row : Row) (c : Context) (f : Field)
    → c.grid_sensor_online ≡ true
    → row f ≡ none
    → rejects row c f ≡ false
unfolding rejects same extended_bounds
nothing_absent row c grid_kw on e = ground arith
nothing_absent row c house_load_kw on e = ground arith
nothing_absent row c _ on e = ground arith

nothing_rejected :
    (row : Row) (c : Context)
    → (validate_telemetry row c).1.valid ≡ true
    → (f : Field) → rejects row c f ≡ false
unfolding validate_telemetry
nothing_rejected row c e f =
    sym (notes_overrides row c f)
    ∙ is_empty-contains (notes row c).overrides (ap is_empty (sym (notes_lists row c)) ∙ e) f

sensor_online :
    (row : Row) (c : Context) → rejects row c grid_kw ≡ false → c.grid_sensor_online ≡ true
unfolding rejects same
sensor_online row c e = ground (arith, e)

reading_rejects :
    (row : Row) (c : Context) (f : Field) (v : ℤ)
    → row f ≡ some v
    → Plausible c f v
    → rejects row c f ≡ false
reading_rejects row c f v e p = ground (arith, (accepted row c f v).1 (e, p))

nothing_dropped :
    (row : Row) (c : Context)
    → (c.grid_sensor_online ≡ true) × ((f : Field) (v : ℤ) → row f ≡ some v → Plausible c f v)
    → (f : Field) → rejects row c f ≡ false
nothing_dropped row c (on, plausible) f = elim (Option-cases (row f)) [
  | inl e ↦ nothing_absent row c f on e
  | inr (v, e) ↦ reading_rejects row c f v e (plausible f v e)
]

-- A validation is valid exactly if the sensor is online and every reading of the row is
-- plausible.
pub validate_telemetry-valid :
    (row : Row) (c : Context)
    → (validate_telemetry row c).1.valid ≡ true
      ↔ (c.grid_sensor_online ≡ true) × ((f : Field) (v : ℤ) → row f ≡ some v → Plausible c f v)
unfolding validate_telemetry
validate_telemetry-valid row c = (
  λ e. (
    sensor_online row c (nothing_rejected row c e grid_kw),
    λ f v h. ((accepted row c f v).0 (rw (nothing_rejected row c e f) h)).1,
  ),
  λ h.
      ap is_empty (notes_lists row c)
      ∙ none_contained (notes row c).overrides
          (λ f. notes_overrides row c f ∙ nothing_dropped row c h f),
)
