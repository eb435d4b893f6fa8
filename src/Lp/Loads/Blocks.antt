-- ===== src/Lp/Loads/Blocks.antt =====
-- The runs of a relay in a solution.
use energy_optimiser.Prelude.{
  ℕ, zero, suc, ◌+◌, ◌-◌, ◌*◌, ◌≤◌, ◌<◌, ◌≡◌, ◌⊎◌, inl, inr, true, Bool-cases, ltb, subst, ℤ, pos,
  ◌-ℤ◌, ◌≤ℤ◌, scale, length, get_elem?-some, arith, int_laws, parts_of_eq, eq_of_parts,
}
use energy_optimiser.Lp.Linear.{Assignment, Satisfied, value, relay, lp_sum, for_slots}
use energy_optimiser.Lp.Linear.Laws.{Satisfied-append, for_slots-at}
use energy_optimiser.Lp.Loads.{
  Horizon, RelayConfig, Calendar, RelayStatus, relay_variable, min, signal_driven, schedule,
  targets_from, target_of,
}
use energy_optimiser.Lp.Loads.Continuous.{
  block_from, min_on_rows, min_off_rows, continuous, carry_over,
}

abbrev pub IsBinary : ℤ → Type 0
IsBinary x = (x ≡ pos 0) ⊎ (x ≡ pos 1000)

binary_bounds : (x : ℤ) → IsBinary x → (pos 0 ≤ℤ x) × (x ≤ℤ pos 1000)
binary_bounds x (inl e) =
    (omega (int_laws, parts_of_eq x (pos 0) e), omega (int_laws, parts_of_eq x (pos 0) e))
binary_bounds x (inr e) =
    (omega (int_laws, parts_of_eq x (pos 1000) e), omega (int_laws, parts_of_eq x (pos 1000) e))

impossible : (t k : ℕ) → t ≤ k → k < t + 0 → 1 ≤ 0
impossible t k low high = omega arith

module _ (a : Assignment) (h : Horizon) (c : RelayConfig) where
  abbrev pub state : ℕ → ℤ
  state t = a h.prefix (relay c.load_id) t

  -- The relay is on or off in the n slots from t on.
  abbrev pub Switched : ℕ → ℕ → Type 0
  Switched t n = (k : ℕ) → t ≤ k → k < t + n → IsBinary (state k)

  later : (t n : ℕ) → Switched t (suc n) → Switched (suc t) n
  later t n b k low high = b k (omega arith) (omega arith)

  abbrev block_sum : ℕ → ℕ → ℤ
  block_sum t n = value a (lp_sum (block_from h c t n))

  block_bounds :
      (t n : ℕ) → Switched t n → (pos 0 ≤ℤ block_sum t n) × (block_sum t n ≤ℤ pos (1000 * n))
  block_bounds t zero b = (omega arith, omega arith)
  block_bounds t (suc n) b =
      let (low, high) = binary_bounds (state t) (b t (omega arith) (omega arith)) in
      let (rest_low, rest_high) = block_bounds (suc t) n (later t n b) in
      (omega (int_laws, low, rest_low), omega (int_laws, high, rest_high))

  -- A block whose sum is full is on throughout.
  full_block :
      (t n : ℕ)
      → Switched t n
      → pos (1000 * n) ≤ℤ block_sum t n
      → (k : ℕ) → t ≤ k
      → k < t + n
      → state k ≡ pos 1000
  full_block t zero b full k low high = elim (impossible t k low high) [ ]
  full_block t (suc n) b full k low high =
      let (first_low, first_high) = binary_bounds (state t) (b t (omega arith) (omega arith)) in
      let (rest_low, rest_high) = block_bounds (suc t) n (later t n b) in
      elim (Bool-cases (ltb t k)) [
        | inl beyond ↦
            full_block (suc t) n (later t n b) (omega (int_laws, full, first_high)) k
              (ground (arith, beyond)) (omega arith)
        | inr here ↦
            let same : t ≡ k = ground (arith, here, low) in
            subst (λ j. state j ≡ pos 1000) same
              (eq_of_parts (state t) (pos 1000) (omega (int_laws, full, first_high, rest_high)))
      ]

  -- A block whose sum is empty is off throughout.
  empty_block :
      (t n : ℕ)
      → Switched t n
      → block_sum t n ≤ℤ pos 0
      → (k : ℕ) → t ≤ k
      → k < t + n
      → state k ≡ pos 0
  empty_block t zero b empty k low high = elim (impossible t k low high) [ ]
  empty_block t (suc n) b empty k low high =
      let (first_low, first_high) = binary_bounds (state t) (b t (omega arith) (omega arith)) in
      let (rest_low, rest_high) = block_bounds (suc t) n (later t n b) in
      elim (Bool-cases (ltb t k)) [
        | inl beyond ↦
            empty_block (suc t) n (later t n b) (omega (int_laws, empty, first_low)) k
              (ground (arith, beyond)) (omega arith)
        | inr here ↦
            let same : t ≡ k = ground (arith, here, low) in
            subst (λ j. state j ≡ pos 0) same
              (eq_of_parts (state t) (pos 0) (omega (int_laws, empty, first_low, rest_low)))
      ]

  on_row :
      (min_on t left j m : ℕ)
      → Satisfied a (min_on_rows h c min_on t left)
      → t ≤ j
      → j < t + left
      → m ≡ t + left - j
      → scale (min min_on m) (state (suc j) -ℤ state j) ≤ℤ block_sum (suc j) (min min_on m)
  on_row min_on t zero j m rows low high size = elim (impossible t j low high) [ ]
  on_row min_on t (suc left) j m (row, rows) low high size = elim (Bool-cases (ltb t j)) [
    | inl beyond ↦
        on_row min_on (suc t) left j m rows (ground (arith, beyond)) (omega arith) (omega arith)
    | inr here ↦
        let same : t ≡ j = ground (arith, here, low) in
        let length_here : suc left ≡ m = omega arith in
        subst
          (λ i. scale (min min_on m) (state (suc i) -ℤ state i) ≤ℤ block_sum (suc i) (min min_on m))
          same
          (subst
            (λ n.
              scale (min min_on n) (state (suc t) -ℤ state t) ≤ℤ block_sum (suc t) (min min_on n))
            length_here row)
  ]

  off_row :
      (min_off t left j m : ℕ)
      → Satisfied a (min_off_rows h c min_off t left)
      → t ≤ j
      → j < t + left
      → m ≡ t + left - j
      → block_sum (suc j) (min min_off m)
        ≤ℤ scale (min min_off m) (pos 1000 -ℤ (state j -ℤ state (suc j)))
  off_row min_off t zero j m rows low high size = elim (impossible t j low high) [ ]
  off_row min_off t (suc left) j m (row, rows) low high size = elim (Bool-cases (ltb t j)) [
    | inl beyond ↦
        off_row min_off (suc t) left j m rows (ground (arith, beyond)) (omega arith) (omega arith)
    | inr here ↦
        let same : t ≡ j = ground (arith, here, low) in
        let length_here : suc left ≡ m = omega arith in
        subst
          (λ i.
            block_sum (suc i) (min min_off m)
            ≤ℤ scale (min min_off m) (pos 1000 -ℤ (state i -ℤ state (suc i))))
          same
          (subst
            (λ n.
              block_sum (suc t) (min min_off n)
              ≤ℤ scale (min min_off n) (pos 1000 -ℤ (state t -ℤ state (suc t))))
            length_here row)
  ]

-- The right sides of the rows at a change of the relay.
scale_on : (n : ℕ) → pos (1000 * n) ≤ℤ scale n (pos 1000 -ℤ pos 0)
unfolding scale ◌-ℤ◌
scale_on n = ground arith

scale_off : (n : ℕ) → scale n (pos 1000 -ℤ (pos 1000 -ℤ pos 0)) ≤ℤ pos 0
unfolding scale ◌-ℤ◌
scale_off n = ground arith

min_reach : (a b k j : ℕ) → k < j + a → k < j + b → k < j + min a b
min_reach a b k j p q = ground (arith, p, q)

block_end : (a b k j n : ℕ) → k < j + min a b → j + b ≤ n → k < n
block_end a b k j n lt le = ground (arith, lt, le)

module _ (a : Assignment) (h : Horizon) (c : RelayConfig) (calendar : Calendar)
    (status : RelayStatus) (min_on min_off : ℕ)
    (solved : Satisfied a (continuous h c calendar status min_on min_off).constraints) where
  -- The groups of constraints that the runs depend on.
  rows :
      Satisfied a (for_slots 0 h.slots (relay_variable h c true))
      × Satisfied a (min_on_rows h c min_on 0 (length h.slots - 1))
      × Satisfied a (min_off_rows h c min_off 0 (length h.slots - 1))
  unfolding continuous signal_driven
  rows =
      let (h₄, _) =
        Satisfied-append a _
          (carry_over h c calendar min_on min_off status.relay_on status.relay_state_since h.slots)
          solved in
      let (h₃, offs) = Satisfied-append a _ (min_off_rows h c min_off 0 (length h.slots - 1)) h₄ in
      let (h₂, ons) = Satisfied-append a _ (min_on_rows h c min_on 0 (length h.slots - 1)) h₃ in
      let (h₁, _) =
        Satisfied-append a _ (targets_from h c calendar (target_of c status h.slot_minutes) h.slots)
          h₂ in
      let (binaries, _) = Satisfied-append a _ (for_slots 0 h.slots (schedule h c calendar)) h₁ in
      (binaries, ons, offs)

  switched_at : (k s : ℕ) → Satisfied a (relay_variable h c true k s) → IsBinary (state a h c k)
  switched_at zero s x = x.0
  switched_at (suc k) s x = x.0

  switched : (k : ℕ) → k < length h.slots → IsBinary (state a h c k)
  switched k lt =
      let (s, e) = get_elem?-some h.slots k lt in
      switched_at k s (for_slots-at a (relay_variable h c true) h.slots k s rows.0 e)

  block_switched :
      (min_slots j : ℕ)
      → suc j < length h.slots
      → Switched a h c (suc j) (min min_slots (length h.slots - 1 - j))
  block_switched min_slots j lt k low high =
      switched k
        (block_end min_slots (length h.slots - 1 - j) k (suc j) (length h.slots) high (omega arith))

  -- In every solution for a load that runs in blocks, a relay that goes on in some slot stays on for
  -- `min_on` slots, that one included, as far as the horizon reaches.
  pub stays_on :
      (j k : ℕ)
      → state a h c j ≡ pos 0
      → state a h c (suc j) ≡ pos 1000
      → suc j ≤ k
      → k < suc j + min_on
      → k < length h.slots
      → state a h c k ≡ pos 1000
  stays_on j k was now low near high =
      let m = length h.slots - 1 - j in
      let row =
        on_row a h c min_on 0 (length h.slots - 1) j m rows.1 (omega arith) (omega arith)
          (omega arith) in
      let known =
        subst
          (λ x. scale (min min_on m) (x -ℤ state a h c j) ≤ℤ block_sum a h c (suc j) (min min_on m))
          now row in
      let full =
        subst (λ x. scale (min min_on m) (pos 1000 -ℤ x) ≤ℤ block_sum a h c (suc j) (min min_on m))
          was known in
      full_block a h c (suc j) (min min_on m) (block_switched min_on j (omega arith))
        (omega (int_laws, scale_on (min min_on m), full)) k low
        (min_reach min_on m k (suc j) near (omega arith))

  -- In every solution for a load that runs in blocks, a relay that goes off in some slot stays off
  -- for `min_off` slots, that one included, as far as the horizon reaches.
  pub stays_off :
      (j k : ℕ)
      → state a h c j ≡ pos 1000
      → state a h c (suc j) ≡ pos 0
      → suc j ≤ k
      → k < suc j + min_off
      → k < length h.slots
      → state a h c k ≡ pos 0
  stays_off j k was now low near high =
      let m = length h.slots - 1 - j in
      let row =
        off_row a h c min_off 0 (length h.slots - 1) j m rows.2 (omega arith) (omega arith)
          (omega arith) in
      let known =
        subst
          (λ x.
            block_sum a h c (suc j) (min min_off m)
            ≤ℤ scale (min min_off m) (pos 1000 -ℤ (x -ℤ state a h c (suc j))))
          was row in
      let empty =
        subst
          (λ x.
            block_sum a h c (suc j) (min min_off m)
            ≤ℤ scale (min min_off m) (pos 1000 -ℤ (pos 1000 -ℤ x)))
          now known in
      empty_block a h c (suc j) (min min_off m) (block_switched min_off j (omega arith))
        (omega (int_laws, scale_off (min min_off m), empty)) k low
        (min_reach min_off m k (suc j) near (omega arith))
