-- ===== src/Sigenergy/Blind.antt =====
-- The battery power that the verification watcher reads.
use energy_optimiser.Prelude.{◌≡◌, ◌⊎◌, some, ℤ, pos, negsuc, ◌≤ℤ◌, arith, refl, floor_div, scale}
use energy_optimiser.Lp.Dispatch.{LpDispatch, conforms, not_verified, verify_battery_response}
use energy_optimiser.Sigenergy.{
  registers, Reader, Quantity, quantity, read_battery_power_kw, thousandths,
}
use energy_optimiser.Sigenergy.Words.{two_words, complement32, FitsS32, read_input_s32_lem}

-- A battery power of at most 100 kW, either way.
abbrev pub UpTo100Kw : ℤ → Type 0
UpTo100Kw v = (negsuc 99_999 ≤ℤ v) × (v ≤ℤ pos 100_000)

up_to_100_w :
    (v : ℤ)
    → UpTo100Kw v
    → (negsuc 99 ≤ℤ thousandths (quantity v 1_000_000))
      × (thousandths (quantity v 1_000_000) ≤ℤ pos 100)
unfolding thousandths scale floor_div
up_to_100_w (pos n) h = ground (arith, h)
up_to_100_w (negsuc n) h = ground (arith, h)

fits : (v : ℤ) → UpTo100Kw v → FitsS32 v
fits (pos n) h = omega (arith, h)
fits (negsuc n) h = omega (arith, h)

reading :
    (v : ℤ) (r : Reader)
    → UpTo100Kw v
    → (read_battery_power_kw (registers (two_words (complement32 v))) r).0
      ≡ some (quantity v 1_000_000)
unfolding read_battery_power_kw
reading v r h = rw (read_input_s32_lem v r (fits v h)) refl

small_accepted :
    (d : LpDispatch) (m floor : ℤ)
    → negsuc 99 ≤ℤ m
    → m ≤ℤ pos 100
    → pos 100 ≤ℤ d.cap_kw
    → pos 100 ≤ℤ floor
    → (verify_battery_response d m floor ≡ conforms)
      ⊎ (verify_battery_response d m floor ≡ not_verified)
unfolding verify_battery_response
small_accepted d m floor low high cap f = ground arith

-- Whatever the command, with a cap and a floor of at least 0.1 kW: a battery power of up to
-- 100 kW in either direction, read for the verification, is never taken for a deviation.
pub watcher_blind :
    (d : LpDispatch) (v floor : ℤ) (r : Reader)
    → UpTo100Kw v
    → pos 100 ≤ℤ d.cap_kw
    → pos 100 ≤ℤ floor
    → (q : Quantity) × ((read_battery_power_kw (registers (two_words (complement32 v))) r).0
        ≡ some q)
      × ((verify_battery_response d (thousandths q) floor ≡ conforms)
          ⊎ (verify_battery_response d (thousandths q) floor ≡ not_verified))
watcher_blind d v floor r h cap f =
    let (low, high) = up_to_100_w v h in
    (
      quantity v 1_000_000,
      reading v r h,
      small_accepted d (thousandths (quantity v 1_000_000)) floor low high cap f,
    )
