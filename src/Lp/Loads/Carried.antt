-- ===== src/Lp/Loads/Carried.antt =====
-- The state of a relay that is carried over from the ticks before.
use energy_optimiser.Prelude.{
  ℕ, zero, suc, ◌+◌, ◌-◌, ◌*◌, ◌/◌, ◌<◌, ◌≡◌, Bool, true, false, some, List, [], ◌∷◌, ℤ, pos,
  get_elem?, arith, subst, if◌then◌else◌, ap, sym,
}
use energy_optimiser.Lp.Linear.{Assignment, Satisfied}
use energy_optimiser.Lp.Linear.Laws.{Satisfied-append}
use energy_optimiser.Lp.Loads.{
  Horizon, RelayConfig, Calendar, RelayStatus, auto, slot_state, is_auto,
}
use energy_optimiser.Lp.Loads.Continuous.{carried, carry_over, continuous}
use energy_optimiser.Lp.Loads.Blocks.{state}

module _ (a : Assignment) (h : Horizon) (c : RelayConfig) (calendar : Calendar) where
  carried-get :
      (x : ℤ) (t remaining : ℕ) (slots : List ℕ) (k s : ℕ)
      → Satisfied a (carried h c calendar x t remaining slots)
      → k < remaining
      → get_elem? slots k ≡ some s
      → slot_state c calendar s ≡ auto
      → state a h c (t + k) ≡ x
  carried-get x t remaining [] k s rows lt e free = cc
  carried-get x t zero (u ∷ slots) k s rows lt e free = elim lt [ ]
  carried-get x t (suc remaining) (u ∷ slots) zero s rows lt e free =
      let here : u ≡ s = cc in
      let open_slot : is_auto (slot_state c calendar u) ≡ true =
        subst (λ i. is_auto (slot_state c calendar i) ≡ true) (sym here) (ap is_auto free) in
      let row = (Satisfied-append a _ (carried h c calendar x (suc t) remaining slots) rows).0 in
      let same : t ≡ t + 0 = omega arith in
      subst (λ i. state a h c i ≡ x) same (rw open_slot at row).0
  carried-get x t (suc remaining) (u ∷ slots) (suc k) s rows lt e free =
      let rest =
        carried-get x (suc t) remaining slots k s
          (Satisfied-append a _ (carried h c calendar x (suc t) remaining slots) rows).1
          (omega arith) e free in
      let same : suc t + k ≡ t + suc k = omega arith in subst (λ i. state a h c i ≡ x) same rest

-- What is left of a block that has lasted since `since`, at the first slot.
abbrev pub left_of : ℕ → Horizon → ℕ → ℕ → ℕ
left_of min_slots h start since = min_slots - (start - since) / (h.slot_minutes * 60_000_000)

module _ (a : Assignment) (h : Horizon) (c : RelayConfig) (calendar : Calendar)
    (status : RelayStatus) (min_on min_off : ℕ)
    (solved : Satisfied a (continuous h c calendar status min_on min_off).constraints) where
  carry_rows :
      Satisfied a
        (carry_over h c calendar min_on min_off status.relay_on status.relay_state_since h.slots)
  unfolding continuous
  carry_rows =
      (Satisfied-append a _
        (carry_over h c calendar min_on min_off status.relay_on status.relay_state_since h.slots)
        solved).1

  rows_known :
      (on : Bool) (since : ℕ) (slots : List ℕ)
      → status.relay_on ≡ some on
      → status.relay_state_since ≡ some since
      → h.slots ≡ slots
      → Satisfied a (carry_over h c calendar min_on min_off (some on) (some since) slots)
  rows_known on since slots seen from these =
      let r₁ =
        subst
          (λ x.
            Satisfied a (carry_over h c calendar min_on min_off x status.relay_state_since h.slots))
          seen carry_rows in
      let r₂ =
        subst (λ x. Satisfied a (carry_over h c calendar min_on min_off (some on) x h.slots)) from
          r₁ in
      subst (λ x. Satisfied a (carry_over h c calendar min_on min_off (some on) (some since) x))
        these r₂

  -- A relay that was observed on since some instant before the horizon, for less than `min_on` slots,
  -- is kept on in every solution until the block is complete, in each slot without an override. One
  -- that was observed off is kept off until `min_off` slots are complete.
  pub carry_over_lem :
      (on : Bool) (since start : ℕ) (slots : List ℕ) (k s : ℕ)
      → status.relay_on ≡ some on
      → status.relay_state_since ≡ some since
      → h.slots ≡ start ∷ slots
      → k < left_of (if on then min_on else min_off) h start since
      → get_elem? h.slots k ≡ some s
      → slot_state c calendar s ≡ auto
      → state a h c k ≡ (if on then pos 1000 else pos 0)
  carry_over_lem true since start slots k s seen from these near at free =
      let e = subst (λ ss. get_elem? ss k ≡ some s) these at in
      let same : 0 + k ≡ k = omega arith in
      subst (λ i. state a h c i ≡ pos 1000) same
        (carried-get a h c calendar (pos 1000) 0 _ (start ∷ slots) k s
          (rows_known true since (start ∷ slots) seen from these) near e free)
  carry_over_lem false since start slots k s seen from these near at free =
      let e = subst (λ ss. get_elem? ss k ≡ some s) these at in
      let same : 0 + k ≡ k = omega arith in
      subst (λ i. state a h c i ≡ pos 0) same
        (carried-get a h c calendar (pos 0) 0 _ (start ∷ slots) k s
          (rows_known false since (start ∷ slots) seen from these) near e free)
