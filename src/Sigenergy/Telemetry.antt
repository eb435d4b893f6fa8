-- ===== src/Sigenergy/Telemetry.antt =====
-- src/optimiser/clients/sigenergy.py: the extended telemetry of `read_state`. What the registers
-- answer within one call is a `Bus`: a call reads each register once.
use energy_optimiser.Prelude.{ℕ, Option, List, [], ◌∷◌, ◌++◌}
use energy_optimiser.Sigenergy.{ReadReply, Reader, Quantity}
use energy_optimiser.Sigenergy.Connection.{
  Read, perform, input_s16, input_u32, input_u64, input_u16_scaled, input_u16_best_effort,
  holding_u16_best_effort,
}

-- The two slaves of the gateway.
pub data Slave : Type 0 where
  plant inverter : Slave

abbrev pub Bus : Type 0
Bus = Slave → ℕ → ReadReply

-- The keys of the dictionary.
pub data Field : Type 0 where
  soh_pct cell_temp_avg_c cell_temp_max_c cell_temp_min_c cell_volt_avg_v pcs_temp_c : Field
  available_charge_kw available_discharge_kw running_state : Field
  alarm1 alarm2 alarm3 alarm4 alarm5 : Field
  lifetime_pv_kwh lifetime_load_kwh lifetime_charge_kwh lifetime_discharge_kwh : Field
  lifetime_import_kwh lifetime_export_kwh : Field
  mppt1_voltage_v mppt1_current_a mppt2_voltage_v mppt2_current_a : Field
  mppt3_voltage_v mppt3_current_a mppt4_voltage_v mppt4_current_a : Field
  grid_freq_hz phase_a_voltage_v phase_b_voltage_v phase_c_voltage_v remote_ems_mode : Field

abbrev pub Extended : Type 0
Extended = List (Field × Option Quantity)

abbrev battery_reads : Bus → List (Field × Read)
battery_reads b =
    (soh_pct, input_u16_scaled 10 (b inverter 30602))
    ∷ (cell_temp_avg_c, input_s16 10 (b inverter 30603))
    ∷ (cell_temp_max_c, input_s16 10 (b inverter 30620))
    ∷ (cell_temp_min_c, input_s16 10 (b inverter 30621))
    ∷ (cell_volt_avg_v, input_u16_scaled 1000 (b inverter 30604))
    ∷ (pcs_temp_c, input_s16 10 (b inverter 31003))
    ∷ (available_charge_kw, input_u32 1000 (b plant 30047))
    ∷ (available_discharge_kw, input_u32 1000 (b plant 30049))
    ∷ []

abbrev alarm_reads : Bus → List (Field × Read)
alarm_reads b =
    (running_state, input_u16_best_effort (b inverter 30578))
    ∷ (alarm1, input_u16_best_effort (b inverter 30605))
    ∷ (alarm2, input_u16_best_effort (b inverter 30606))
    ∷ (alarm3, input_u16_best_effort (b inverter 30607))
    ∷ (alarm4, input_u16_best_effort (b inverter 30608))
    ∷ (alarm5, input_u16_best_effort (b inverter 30609))
    ∷ []

abbrev lifetime_reads : Bus → List (Field × Read)
lifetime_reads b =
    (lifetime_pv_kwh, input_u64 100 (b plant 30088))
    ∷ (lifetime_load_kwh, input_u64 100 (b plant 30094))
    ∷ (lifetime_charge_kwh, input_u64 100 (b plant 30200))
    ∷ (lifetime_discharge_kwh, input_u64 100 (b plant 30204))
    ∷ (lifetime_import_kwh, input_u64 100 (b plant 30216))
    ∷ (lifetime_export_kwh, input_u64 100 (b plant 30220))
    ∷ []

abbrev string_reads : Bus → List (Field × Read)
string_reads b =
    (mppt1_voltage_v, input_s16 10 (b inverter 31027))
    ∷ (mppt1_current_a, input_s16 100 (b inverter 31028))
    ∷ (mppt2_voltage_v, input_s16 10 (b inverter 31029))
    ∷ (mppt2_current_a, input_s16 100 (b inverter 31030))
    ∷ (mppt3_voltage_v, input_s16 10 (b inverter 31031))
    ∷ (mppt3_current_a, input_s16 100 (b inverter 31032))
    ∷ (mppt4_voltage_v, input_s16 10 (b inverter 31033))
    ∷ (mppt4_current_a, input_s16 100 (b inverter 31034))
    ∷ []

abbrev grid_reads : Bus → List (Field × Read)
grid_reads b =
    (grid_freq_hz, input_u16_scaled 100 (b inverter 31002))
    ∷ (phase_a_voltage_v, input_u32 100 (b inverter 31011))
    ∷ (phase_b_voltage_v, input_u32 100 (b inverter 31013))
    ∷ (phase_c_voltage_v, input_u32 100 (b inverter 31015))
    ∷ (remote_ems_mode, holding_u16_best_effort (b plant 40031))
    ∷ []

-- The reads in order, each kept under its key.
unfoldable pub gather : List (Field × Read) → Reader → Extended × Reader
gather [] r = ([], r)
gather ((f, c) ∷ calls) r =
    let (q, r') = perform c r in let (rest, r'') = gather calls r' in ((f, q) ∷ rest, r'')

abbrev pub then_gather : List (Field × Read) → Extended × Reader → Extended × Reader
then_gather calls (before, r) = let (rest, r') = gather calls r in (before ++ rest, r')

unfoldable pub read_extended_telemetry : Bus → Reader → Extended × Reader
read_extended_telemetry b r = then_gather (grid_reads b) (
    then_gather (string_reads b)
      (then_gather (lifetime_reads b) (then_gather (alarm_reads b) (gather (battery_reads b) r))))
