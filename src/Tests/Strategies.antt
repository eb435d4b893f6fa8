-- ===== src/Tests/Strategies.antt =====
-- The user strategies over a stand-in for Python's modules.
use Prim.Native.String.{String}
use energy_optimiser.Prelude.{
  ℕ, zero, suc, ◌≡◌, refl, ap, true, false, none, some, List, [], ◌∷◌, pos,
}
use energy_optimiser.Modes.Values.{
  number, str, object, end, field, ok, caught, find, get, NodupKeys,
}
use energy_optimiser.Modes.{
  buy, conserve, ActiveMode, aware, Modes, ModeManager, ModeOverrides, mode_expired,
  service_started_after_end_at, contents, Python, to_dict, payload, persist, load, active,
  to_overrides,
}
use energy_optimiser.Modes.Restart.{ReadsTimes, load-persist}
use energy_optimiser.Modes.Expiry.{IsKeyed}
use energy_optimiser.Modes.Upkeep.{Call, cancels, asks, plans, prunes}

-- An instant is written with one letter for each microsecond.
abbrev tally : ℕ → String
tally zero = ""
tally (suc t) = String.◌∷◌ "x" (tally t)

abbrev count : String → ℕ
count String.[] = 0
count (String.◌∷◌ _ s) = suc (count s)

count-tally : (t : ℕ) → count (tally t) ≡ t
count-tally zero = refl
count-tally (suc t) = ap suc (count-tally t)

abbrev cheap_power : ActiveMode
cheap_power = record {
  kind = buy;
  end_at = some 9;
  params =
      field "ceiling_c_per_kwh" (number (pos 8000))
        (field "soc_cutoff_pct" (number (pos 90_000)) end);
  activated_at = 1;
  source = str "dashboard";
}

abbrev hold_back : ActiveMode
hold_back = record {
  kind = conserve;
  end_at = none;
  params = field "floor_c_per_kwh" (number (pos 20_000)) end;
  activated_at = 2;
  source = str "dashboard";
}

abbrev both : Modes
both = ("buy", cheap_power) ∷ ("conserve", hold_back) ∷ []

abbrev forgetful : Python
forgetful = record {
  isoformat = tally;
  fromisoformat = λ s. some (aware (count s));
  dict_of = λ v. caught;
  dumps = λ v. "document";
  loads = λ s. none;
}

-- It reads the one document that it writes.
abbrev pub python : Python
python = record forgetful { loads = λ s. some (object (payload forgetful both)) }

python-ReadsTimes : ReadsTimes python
python-ReadsTimes = record {
  fromisoformat-isoformat = λ t. ap (λ (n : ℕ). some (aware n)) (count-tally t);
}

abbrev manager : ModeManager
manager = record { modes = both; file = contents "document" }

both-NodupKeys : NodupKeys both
unfolding find
both-NodupKeys = (refl, (refl, tt))

manager-IsKeyed : IsKeyed manager
manager-IsKeyed = record { distinct = both-NodupKeys; named = (refl, (refl, tt)) }

manager_written : persist python manager ≡ manager
unfolding persist
manager_written = refl

load-persist_example :
    (restarted : ModeManager) × (load python 9 (persist python manager).file
      ≡ ok (restarted, mode_expired "buy" service_started_after_end_at ∷ []))
    × ((k : String) → find k restarted.modes ≡ find k (("conserve", hold_back) ∷ []))
unfolding to_dict
load-persist_example = load-persist python python-ReadsTimes 9 manager both-NodupKeys refl

abbrev calls : List Call
calls = asks 4 ∷ plans 5 (6 ∷ 7 ∷ []) ∷ cancels "conserve" ∷ prunes (pos 95_000) ∷ []

abbrev overrides : ModeOverrides
overrides = record {
  buy_active_at = true ∷ false ∷ [];
  buy_ceiling_c_per_kwh = number (pos 8000);
  conserve_active_at = true ∷ true ∷ [];
  conserve_floor_c_per_kwh = number (pos 20_000);
  buy_soc_cutoff_pct = number (pos 90_000);
}

planned : (to_overrides python 5 (8 ∷ 9 ∷ []) manager).1 ≡ ok overrides
unfolding to_overrides active get
planned = refl

cheap_power_stored : find "buy" both ≡ some cheap_power
unfolding find
cheap_power_stored = refl
