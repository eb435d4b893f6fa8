-- ===== src/Validation.antt =====
-- src/optimiser/validation.py: the readings of a telemetry row that are rejected. A row is its
-- readings by field; the fields that the validation does not read are left out, as it leaves them.
-- Readings are in thousandths of their unit, ages in microseconds.
pub mod Accepted
pub mod Verdict
use energy_optimiser.Prelude.{
  ℕ, Bool, true, false, ◌&&◌, ◌||◌, Option, none, some, List, [], ◌∷◌, ◌++◌, ℤ, pos, negsuc, ◌-ℤ◌,
  abs, scale, ltb_ℤ, leb_ℤ, not, ◌==◌, if◌then◌else◌,
}

pub data Field : Type 0 where
  grid_kw house_load_kw soc_pct : Field
  outdoor_temp_c cell_temp_avg_c cell_temp_max_c : Field
  cell_temp_min_c pcs_temp_c cell_volt_avg_v : Field
  soh_pct available_charge_kw available_discharge_kw : Field
  grid_freq_hz phase_a_voltage_v phase_b_voltage_v : Field
  phase_c_voltage_v mppt1_voltage_v mppt2_voltage_v : Field
  mppt3_voltage_v mppt4_voltage_v mppt1_current_a : Field
  mppt2_current_a mppt3_current_a mppt4_current_a : Field
  lifetime_pv_kwh lifetime_load_kwh lifetime_charge_kwh : Field
  lifetime_discharge_kwh lifetime_import_kwh lifetime_export_kwh : Field

unfoldable pub code : Field → ℕ
code grid_kw = 0
code house_load_kw = 1
code soc_pct = 2
code outdoor_temp_c = 3
code cell_temp_avg_c = 4
code cell_temp_max_c = 5
code cell_temp_min_c = 6
code pcs_temp_c = 7
code cell_volt_avg_v = 8
code soh_pct = 9
code available_charge_kw = 10
code available_discharge_kw = 11
code grid_freq_hz = 12
code phase_a_voltage_v = 13
code phase_b_voltage_v = 14
code phase_c_voltage_v = 15
code mppt1_voltage_v = 16
code mppt2_voltage_v = 17
code mppt3_voltage_v = 18
code mppt4_voltage_v = 19
code mppt1_current_a = 20
code mppt2_current_a = 21
code mppt3_current_a = 22
code mppt4_current_a = 23
code lifetime_pv_kwh = 24
code lifetime_load_kwh = 25
code lifetime_charge_kwh = 26
code lifetime_discharge_kwh = 27
code lifetime_import_kwh = 28
code lifetime_export_kwh = 29

unfoldable pub same : Field → Field → Bool
unfolding code
same f g = code f == code g

abbrev pub Row : Type 0
Row = Field → Option ℤ

pub record Bound : Type 0 where
  pub field : Field
  pub low : ℤ
  pub high : ℤ

abbrev pub bound : Field → ℤ → ℤ → Bound
bound f low high = record { field = f; low = low; high = high }

unfoldable pub extended_bounds : List Bound
extended_bounds =
    bound cell_temp_avg_c (negsuc 39_999) (pos 100_000)
    ∷ bound cell_temp_max_c (negsuc 39_999) (pos 100_000)
    ∷ bound cell_temp_min_c (negsuc 39_999) (pos 100_000)
    ∷ bound pcs_temp_c (negsuc 39_999) (pos 120_000)
    ∷ bound cell_volt_avg_v (pos 1500) (pos 5000)
    ∷ bound soh_pct (pos 0) (pos 100_000)
    ∷ bound available_charge_kw (pos 0) (pos 50_000)
    ∷ bound available_discharge_kw (pos 0) (pos 50_000)
    ∷ bound grid_freq_hz (pos 40_000) (pos 70_000)
    ∷ bound phase_a_voltage_v (pos 0) (pos 300_000)
    ∷ bound phase_b_voltage_v (pos 0) (pos 300_000)
    ∷ bound phase_c_voltage_v (pos 0) (pos 300_000)
    ∷ bound mppt1_voltage_v (negsuc 49_999) (pos 700_000)
    ∷ bound mppt2_voltage_v (negsuc 49_999) (pos 700_000)
    ∷ bound mppt3_voltage_v (negsuc 49_999) (pos 700_000)
    ∷ bound mppt4_voltage_v (negsuc 49_999) (pos 700_000)
    ∷ bound mppt1_current_a (negsuc 49_999) (pos 50_000)
    ∷ bound mppt2_current_a (negsuc 49_999) (pos 50_000)
    ∷ bound mppt3_current_a (negsuc 49_999) (pos 50_000)
    ∷ bound mppt4_current_a (negsuc 49_999) (pos 50_000)
    ∷ bound lifetime_pv_kwh (pos 0) (pos 1_000_000_000_000_000)
    ∷ bound lifetime_load_kwh (pos 0) (pos 1_000_000_000_000_000)
    ∷ bound lifetime_charge_kwh (pos 0) (pos 1_000_000_000_000_000)
    ∷ bound lifetime_discharge_kwh (pos 0) (pos 1_000_000_000_000_000)
    ∷ bound lifetime_import_kwh (pos 0) (pos 1_000_000_000_000_000)
    ∷ bound lifetime_export_kwh (pos 0) (pos 1_000_000_000_000_000)
    ∷ []

pub data Warning : Type 0 where
  sensor_offline bom_data_stale : Warning
  negative_load soc_out_of_range : ℤ → Warning
  load_outlier sensor_divergence : ℤ → ℤ → Warning
  out_of_range : Bound → ℤ → Warning

-- The three collections of `validate_telemetry`; the overrides hold None for each of their fields.
pub record Notes : Type 0 where
  pub warnings : List Warning
  pub rejected : List Field
  pub overrides : List Field

abbrev pub no_notes : Notes
no_notes = record { warnings = []; rejected = []; overrides = [] }

abbrev pub warn : Warning → Notes → Notes
warn w n = record n { warnings = n.warnings ++ (w ∷ []) }

abbrev pub reject : Field → Warning → Notes → Notes
reject f w n = record {
  warnings = n.warnings ++ (w ∷ []);
  rejected = n.rejected ++ (f ∷ []);
  overrides = n.overrides ++ (f ∷ []);
}

abbrev pub contains : List Field → Field → Bool
contains [] f = false
contains (g ∷ gs) f = same g f || contains gs f

pub record Context : Type 0 where
  pub grid_sensor_online : Bool
  pub bom_data_age : Option ℤ
  pub rolling_p95 : Option ℤ
  pub grid_kw_shelly : Option ℤ

unfoldable pub check_sensor : Context → Notes → Notes
check_sensor c n = if c.grid_sensor_online then n else record {
  warnings = n.warnings ++ (sensor_offline ∷ []);
  rejected = n.rejected ++ (grid_kw ∷ house_load_kw ∷ []);
  overrides = n.overrides ++ (grid_kw ∷ house_load_kw ∷ []);
}

unfoldable pub check_load : Option ℤ → Notes → Notes
check_load none n = n
check_load (some v) n = if ltb_ℤ v (negsuc 99) then reject house_load_kw (negative_load v) n else n

unfoldable pub check_soc : Option ℤ → Notes → Notes
check_soc none n = n
check_soc (some v) n =
    if not (leb_ℤ (pos 0) v && leb_ℤ v (pos 100_000))
    then reject soc_pct (soc_out_of_range v) n
    else n

-- `bom_data_age and bom_data_age > timedelta(hours=2)`
abbrev pub is_stale : Option ℤ → Bool
is_stale none = false
is_stale (some age) = ltb_ℤ (pos 7_200_000_000) age

unfoldable pub check_bom : Option ℤ → Option ℤ → Notes → Notes
check_bom none age n = n
check_bom (some _) age n = if is_stale age then reject outdoor_temp_c bom_data_stale n else n

unfoldable pub check_outlier : Option ℤ → Option ℤ → Notes → Notes
check_outlier (some load) (some p95) n =
    if ltb_ℤ (pos 0) p95 && ltb_ℤ (scale 3 p95) load then warn (load_outlier load p95) n else n
check_outlier _ _ n = n

unfoldable pub check_divergence : Option ℤ → Option ℤ → Notes → Notes
check_divergence (some grid) (some shelly) n =
    if ltb_ℤ (pos 500) (abs (grid -ℤ shelly)) then warn (sensor_divergence grid shelly) n else n
check_divergence _ _ n = n

abbrev pub is_outside : Bound → Option ℤ → Bool
is_outside b none = false
is_outside b (some v) = not (leb_ℤ b.low v && leb_ℤ v b.high)

abbrev pub reject_outside : Bound → Option ℤ → Notes → Notes
reject_outside b none n = n
reject_outside b (some v) n =
    if is_outside b (some v) then reject b.field (out_of_range b v) n else n

unfoldable pub check_bounds : List Bound → Row → Notes → Notes
check_bounds [] row n = n
check_bounds (b ∷ bs) row n = check_bounds bs row (reject_outside b (row b.field) n)

-- The seven checks, in order.
unfoldable pub notes : Row → Context → Notes
notes row c = check_bounds extended_bounds row (
    check_divergence (row grid_kw) c.grid_kw_shelly (
      check_outlier (row house_load_kw) c.rolling_p95 (
        check_bom (row outdoor_temp_c) c.bom_data_age
          (check_soc (row soc_pct) (check_load (row house_load_kw) (check_sensor c no_notes))))))

abbrev pub override : List Field → Row → Row
override fields row f = if contains fields f then none else row f

pub record ValidationResult : Type 0 where
  pub valid : Bool
  pub warnings : List Warning
  pub rejected_fields : List Field

abbrev pub is_empty : List Field → Bool
is_empty [] = true
is_empty (_ ∷ _) = false

-- The corrected row, the result and whether a VALIDATION_REJECT event follows the warnings' ones.
unfoldable pub validate_telemetry : Row → Context → Row × ValidationResult × Bool
unfolding notes
validate_telemetry row c =
    let n = notes row c in
    (
      override n.overrides row,
      record { valid = is_empty n.rejected; warnings = n.warnings; rejected_fields = n.rejected },
      not (is_empty n.rejected),
    )
