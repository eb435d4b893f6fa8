-- ===== src/Sigenergy.antt =====
-- src/optimiser/clients/sigenergy.py: the reads of the inverter's registers. The answer of the
-- pymodbus client to a call is an argument; its words have 16 bits. What a helper changes of the
-- controller is its `Reader`. A quotient of floats is kept as its two sides.
pub mod Words
pub mod Connection
pub mod Blind
pub mod Telemetry
pub mod State
pub mod Commands
use energy_optimiser.Prelude.{
  ℕ, suc, ◌+◌, ◌-◌, ◌*◌, ◌^◌, ◌==◌, leb, Bool, true, false, ◌&&◌, not, Option, none, some, List, [],
  ◌∷◌, ℤ, pos, sub_ℕ, floor_div, scale, if◌then◌else◌,
}

-- A response with registers, a response with `isError()`, or an exception.
pub data ReadReply : Type 0 where
  registers : List ℕ → ReadReply
  read_refused read_raised : ReadReply

pub record Reader : Type 0 where
  pub connected : Bool
  pub reads_total : ℕ
  pub reads_failed : ℕ

-- raw / gain
pub record Quantity : Type 0 where
  pub raw : ℤ
  pub gain : ℕ

abbrev pub quantity : ℤ → ℕ → Quantity
quantity raw gain = record { raw = raw; gain = gain }

-- The numbers that registers hold: a missing register raises IndexError, all ones are no value.
pub data Decoded : Type 0 where
  missing not_applicable : Decoded
  decoded : ℤ → Decoded

unfoldable pub u16 : List ℕ → Decoded
u16 [] = missing
u16 (w ∷ _) = decoded (pos w)

unfoldable pub s16 : List ℕ → Decoded
s16 [] = missing
s16 (w ∷ _) = if leb 0x8000 w then decoded (sub_ℕ w 0x10000) else decoded (pos w)

unfoldable pub s32 : List ℕ → Decoded
s32 (hi ∷ lo ∷ _) =
    let raw = hi * 2 ^ 16 + lo in
    if leb 0x80000000 raw then decoded (sub_ℕ raw 0x100000000) else decoded (pos raw)
s32 _ = missing

unfoldable pub u32 : List ℕ → Decoded
u32 (hi ∷ lo ∷ _) =
    let raw = hi * 2 ^ 16 + lo in if raw == 0xFFFFFFFF then not_applicable else decoded (pos raw)
u32 _ = missing

unfoldable pub u64 : List ℕ → Decoded
u64 (a ∷ b ∷ c ∷ d ∷ _) =
    let raw = a * 2 ^ 48 + b * 2 ^ 32 + c * 2 ^ 16 + d in
    if raw == 0xFFFFFFFFFFFFFFFF then not_applicable else decoded (pos raw)
u64 _ = missing

abbrev pub counted : Reader → Reader
counted r = record r { reads_total = r.reads_total + 1 }

abbrev pub failed : Reader → Reader
failed r = record r { reads_total = r.reads_total + 1; reads_failed = r.reads_failed + 1 }

-- An exception in a read of the critical path is taken for a lost connection.
abbrev pub failed_by_exception : Bool → Reader → Reader
failed_by_exception critical r = record r {
  connected = r.connected && not critical;
  reads_total = r.reads_total + 1;
  reads_failed = r.reads_failed + 1;
}

abbrev pub read_words : Bool → ℕ → Decoded → Reader → Option Quantity × Reader
read_words critical gain missing r = (none, failed_by_exception critical r)
read_words critical gain not_applicable r = (none, counted r)
read_words critical gain (decoded x) r = (some (quantity x gain), counted r)

-- The shape of every read helper: whether it is on the critical path, how it decodes, its gain.
unfoldable pub read : Bool → (List ℕ → Decoded) → ℕ → ReadReply → Reader → Option Quantity × Reader
read critical decode gain (registers words) r = read_words critical gain (decode words) r
read critical decode gain read_refused r = (none, failed r)
read critical decode gain read_raised r = (none, failed_by_exception critical r)

unfoldable pub read_input_u16 : ReadReply → Reader → Option Quantity × Reader
unfolding read
read_input_u16 = read true u16 1

unfoldable pub read_input_s32 : ReadReply → Reader → Option Quantity × Reader
unfolding read
read_input_s32 = read true s32 1000

unfoldable pub read_holding_u16 : ReadReply → Reader → Option Quantity × Reader
unfolding read
read_holding_u16 = read true u16 1

unfoldable pub read_input_s16 : ℕ → ReadReply → Reader → Option Quantity × Reader
unfolding read
read_input_s16 gain = read false s16 gain

unfoldable pub read_input_u32 : ℕ → ReadReply → Reader → Option Quantity × Reader
unfolding read
read_input_u32 gain = read false u32 gain

unfoldable pub read_input_u64 : ℕ → ReadReply → Reader → Option Quantity × Reader
unfolding read
read_input_u64 gain = read false u64 gain

unfoldable pub read_input_u16_scaled : ℕ → ReadReply → Reader → Option Quantity × Reader
unfolding read
read_input_u16_scaled gain = read false u16 gain

unfoldable pub read_input_u16_best_effort : ReadReply → Reader → Option Quantity × Reader
unfolding read
read_input_u16_best_effort = read false u16 1

unfoldable pub read_holding_u16_best_effort : ReadReply → Reader → Option Quantity × Reader
unfolding read
read_holding_u16_best_effort = read false u16 1

abbrev over_thousand : Option Quantity → Option Quantity
over_thousand none = none
over_thousand (some q) = some (quantity q.raw (q.gain * 1000))

-- It divides what `_read_input_s32` returns, which is in kW already.
unfoldable pub read_battery_power_kw : ReadReply → Reader → Option Quantity × Reader
read_battery_power_kw reply r = let (raw, r') = read_input_s32 reply r in (over_thousand raw, r')

-- A quantity in thousandths, rounded down.
unfoldable pub thousandths : Quantity → ℤ
thousandths q = floor_div (scale 1000 q.raw) q.gain
