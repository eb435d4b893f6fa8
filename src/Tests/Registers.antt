-- ===== src/Tests/Registers.antt =====
-- Reads of registers at concrete words.
use energy_optimiser.Prelude.{◌⊎◌, none, ◌≡◌, refl, true, some, List, [], ◌∷◌, pos, negsuc, arith}
use energy_optimiser.Lp.Dispatch.{
  LpDispatch, discharge, command_discharging_ess_first, conforms, not_verified,
  verify_battery_response,
}
use energy_optimiser.Sigenergy.{
  thousandths, read_battery_power_kw, Quantity, registers, read_raised, Reader, quantity,
  read_input_s32, s32, read,
}
use energy_optimiser.Sigenergy.Words.{two_words, complement32}
use energy_optimiser.Sigenergy.Blind.{watcher_blind}
use energy_optimiser.Sigenergy.Connection.{Read, input_s32, input_u64, input_u16}

abbrev fresh : Reader
fresh = record { connected = true; reads_total = 0; reads_failed = 0 }

-- 5 kW of discharge.
discharging_words :
    (read_input_s32 (registers (0xFFFF ∷ 0xEC78 ∷ [])) fresh).0 ≡ some (quantity (negsuc 4999) 1000)
unfolding read_input_s32 read s32
discharging_words = refl

abbrev evening : List Read
evening =
    input_u16 (registers (1 ∷ [])) ∷ input_u64 100 read_raised ∷ input_s32 (registers (7 ∷ [])) ∷ []

abbrev evening_peak : LpDispatch
evening_peak = record {
  mode = command_discharging_ess_first;
  cap_kw = pos 10_000;
  signed_intent_kw = negsuc 2999;
  kind = discharge;
  target_soc_pct = none;
}

-- The battery charges with 8 kW where 3 kW of discharge were commanded.
watcher_blind_example :
    (q : Quantity) × ((read_battery_power_kw
        (registers (two_words (complement32 (pos 8000))))
        fresh).0
      ≡ some q)
    × ((verify_battery_response evening_peak (thousandths q) (pos 300) ≡ conforms)
        ⊎ (verify_battery_response evening_peak (thousandths q) (pos 300) ≡ not_verified))
watcher_blind_example =
    watcher_blind evening_peak (pos 8000) (pos 300) fresh (omega arith, omega arith) (omega arith)
      (omega arith)
