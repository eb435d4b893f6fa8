-- ===== src/Shelly/Meter/Today.antt =====
-- The energy of the day against the readings of the counters.
use energy_optimiser.Prelude.{
  ℕ, ◌==◌, ◌≡◌, ◌≢◌, refl, true, false, Bool-cases, inl, inr, Option, none, some, List, [], ◌∷◌,
  All, map, ℤ, pos, ◌+ℤ◌, ◌-ℤ◌, ltb_ℤ, if◌then◌else◌, arith, int_laws, parts_of_eq, subst, sym, ap,
  ◌∙◌,
}
use energy_optimiser.Shelly.Types.{utc_date}
use energy_optimiser.Shelly.Meter.{
  Side, Meter, counter_reset_threshold_kwh, is_day, new_side, track_side, track_daily_energy,
}

-- One reading of both counters.
pub record Reading : Type 0 where
  pub at : ℕ
  pub imp : ℤ
  pub ret : ℤ

abbrev pub read : Reading → Meter → Meter
read r m = (track_daily_energy r.at r.imp r.ret m).0

abbrev pub read_all : Meter → List Reading → Meter
read_all m [] = m
read_all m (r ∷ rs) = read_all (read r m) rs

-- What a counter has counted between two readings: a fall by more than the threshold is a restart
-- of the device, over which nothing counts.
abbrev pub counted : ℤ → ℤ → ℤ
counted last total =
    if ltb_ℤ total (last -ℤ counter_reset_threshold_kwh) then pos 0 else total -ℤ last

abbrev pub sum_counted : ℤ → List ℤ → ℤ
sum_counted last [] = pos 0
sum_counted last (total ∷ totals) = counted last total +ℤ sum_counted total totals

-- The side is up to date at the reading `last`.
pub record IsCurrent (s : Side) (last : ℤ) : Type 0 where
  pub seen : s.last_total_energy_kwh ≡ some last
  pub difference : s.energy_today_kwh ≡ last -ℤ s.energy_at_cycle_start

shifted : (t e : ℤ) → t -ℤ (t -ℤ e) ≡ e +ℤ pos 0
shifted t e = omega int_laws

moved : (t l b e : ℤ) → e ≡ l -ℤ b → t -ℤ b ≡ e +ℤ (t -ℤ l)
moved t l b e h = omega (int_laws, parts_of_eq e (l -ℤ b) h)

track_side-IsCurrent : (total : ℤ) (s : Side) → IsCurrent (track_side total s) total
unfolding track_side
track_side-IsCurrent total s = record { seen = refl; difference = refl }

track_side_lem :
    (s : Side) (last total : ℤ)
    → IsCurrent s last
    → (track_side total s).energy_today_kwh ≡ s.energy_today_kwh +ℤ counted last total
unfolding track_side
track_side_lem s last total h =
    elim (Bool-cases (ltb_ℤ total (last -ℤ counter_reset_threshold_kwh))) [
      | inl reset ↦ rw (h.seen, reset) (shifted total s.energy_today_kwh)
      | inr grown ↦
          rw (h.seen, grown)
            (moved total last s.energy_at_cycle_start s.energy_today_kwh h.difference)
    ]

onwards : (e t c rest final : ℤ) → t ≡ e +ℤ c → final ≡ t +ℤ rest → final ≡ e +ℤ (c +ℤ rest)
onwards e t c rest final step h =
    omega (int_laws, parts_of_eq t (e +ℤ c) step, parts_of_eq final (t +ℤ rest) h)

none_yet : (e : ℤ) → e ≡ e +ℤ pos 0
none_yet e = omega int_laws

nothing_before : (x : ℤ) → pos 0 +ℤ x ≡ x
nothing_before x = omega int_laws

itself : (x : ℤ) → pos 0 ≡ x -ℤ x
itself x = omega int_laws

pub this_day : (d : ℕ) → is_day (some d) d ≡ true
this_day d = ground arith

same_day :
    (m : Meter) (r : Reading)
    → m.today_date ≡ some (utc_date r.at)
    → is_day m.today_date (utc_date r.at) ≡ true
same_day m r h = rw h (this_day (utc_date r.at))

pub other_day : (date : Option ℕ) (d : ℕ) → date ≢ some d → is_day date d ≡ false
other_day none d h = refl
other_day (some date) d h = elim (Bool-cases (date == d)) [
  | inl same ↦ elim (h (ap some (ground (arith, same)))) [ ]
  | inr other ↦ other
]

read-same :
    (m : Meter) (r : Reading)
    → m.today_date ≡ some (utc_date r.at)
    → read r m ≡ record m { imp = track_side r.imp m.imp; ret = track_side r.ret m.ret }
unfolding track_daily_energy
read-same m r h = rw (read, same_day m r h) refl

read-new :
    (m : Meter) (r : Reading)
    → m.today_date ≢ some (utc_date r.at)
    → read r m
      ≡ record { today_date = some (utc_date r.at); imp = new_side r.imp; ret = new_side r.ret }
unfolding track_daily_energy
read-new m r h = rw (read, other_day m.today_date (utc_date r.at) h) refl

-- The day's energies after some readings.
abbrev pub Totals : Meter → List Reading → ℤ → ℤ → Type 0
Totals m rs imp ret =
    ((read_all m rs).imp.energy_today_kwh ≡ imp) × ((read_all m rs).ret.energy_today_kwh ≡ ret)

readings_of_day :
    (m : Meter) (d : ℕ) (imp ret : ℤ) (rs : List Reading)
    → m.today_date ≡ some d
    → IsCurrent m.imp imp
    → IsCurrent m.ret ret
    → All (λ r. utc_date r.at ≡ d) rs
    → Totals m rs
        (m.imp.energy_today_kwh +ℤ sum_counted imp (map (λ q. q.imp) rs))
        (m.ret.energy_today_kwh +ℤ sum_counted ret (map (λ q. q.ret) rs))
readings_of_day m d imp ret [] date ci cr h =
    (none_yet m.imp.energy_today_kwh, none_yet m.ret.energy_today_kwh)
readings_of_day m d imp ret (r ∷ rs) date ci cr (now, later) =
    let next = record m { imp = track_side r.imp m.imp; ret = track_side r.ret m.ret } in
    let (i, e) =
      readings_of_day next d r.imp r.ret rs date (track_side-IsCurrent r.imp m.imp)
        (track_side-IsCurrent r.ret m.ret) later in
    subst
      (λ n.
        Totals n rs (m.imp.energy_today_kwh +ℤ sum_counted imp (map (λ q. q.imp) (r ∷ rs)))
          (m.ret.energy_today_kwh +ℤ sum_counted ret (map (λ q. q.ret) (r ∷ rs))))
      (sym (read-same m r (date ∙ ap some (sym now))))
      (
        onwards m.imp.energy_today_kwh (track_side r.imp m.imp).energy_today_kwh (counted imp r.imp)
            _ _ (track_side_lem m.imp imp r.imp ci) i,
        onwards m.ret.energy_today_kwh (track_side r.ret m.ret).energy_today_kwh (counted ret r.ret)
            _ _ (track_side_lem m.ret ret r.ret cr) e,
      )

new_side-IsCurrent : (total : ℤ) → IsCurrent (new_side total) total
new_side-IsCurrent total = record { seen = refl; difference = itself total }

-- The day's energies after any readings of a day: each is the sum of what its counter has counted
-- from reading to reading since the first one of the day. A restart of the device, which takes the
-- counters back, loses nothing but what was drawn between the two readings around it.
pub read_all_lem :
    (m : Meter) (r : Reading) (rs : List Reading)
    → m.today_date ≢ some (utc_date r.at)
    → All (λ q. utc_date q.at ≡ utc_date r.at) rs
    → ((read_all m (r ∷ rs)).imp.energy_today_kwh ≡ sum_counted r.imp (map (λ q. q.imp) rs))
      × ((read_all m (r ∷ rs)).ret.energy_today_kwh ≡ sum_counted r.ret (map (λ q. q.ret) rs))
read_all_lem m r rs new day =
    let first : Meter = record {
      today_date = some (utc_date r.at);
      imp = new_side r.imp;
      ret = new_side r.ret;
    } in
    let (i, e) =
      readings_of_day first (utc_date r.at) r.imp r.ret rs refl (new_side-IsCurrent r.imp)
        (new_side-IsCurrent r.ret) day in
    subst
      (λ n.
        Totals n rs (sum_counted r.imp (map (λ q. q.imp) rs))
          (sum_counted r.ret (map (λ q. q.ret) rs)))
      (sym (read-new m r new)) (i ∙ nothing_before _, e ∙ nothing_before _)
