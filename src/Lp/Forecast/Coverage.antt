-- ===== src/Lp/Forecast/Coverage.antt =====
-- Where the slots lie, and that their prices are found.
use energy_optimiser.Prelude.{
  ℕ, zero, suc, ◌+◌, ◌-◌, ◌*◌, ◌/◌, ◌%◌, ◌≤◌, ◌<◌, ◌≡◌, ltb, some, List, [], ◌∷◌, arith, get_elem?,
  Bool-cases, inl, inr, true,
}
use energy_optimiser.Lp.Scenarios.{PriceInterval}
use energy_optimiser.Lp.Forecast.{
  minute, horizon_end, take_before, grid_from, price_at, truncate_to_priced, slot_grid, snapped,
}

grid_from-get :
    (start step n i : ℕ) → i < n → get_elem? (grid_from start step n) i ≡ some (start + i * step)
grid_from-get start step zero i h = elim h [ ]
grid_from-get start step (suc n) zero h = ground arith
grid_from-get start step (suc n) (suc i) h = ground (arith, grid_from-get (start + step) step n i)

-- A grid of five-minute slots has twelve for each hour. The first one holds the start and begins at
-- a multiple of five minutes, and each begins where the one before it ends.
pub slot_grid_lem :
    (start hours i : ℕ)
    → i < 12 * hours
    → let first = start - start % (5 * minute) in
      (get_elem? (slot_grid start hours 5) i ≡ some (first + i * (5 * minute)))
      × (first ≤ start)
      × (start < first + 5 * minute)
unfolding slot_grid
slot_grid_lem start hours i h =
    let same : snapped start 5 ≡ start - start % (5 * minute) = omega arith in
    (
      rw (← same) (grid_from-get (snapped start 5) (5 * minute) (hours * 60 / 5) i (omega arith)),
      omega arith,
      omega arith,
    )

-- Each interval has a length, and the next one begins where it ends.
abbrev pub Contiguous : PriceInterval → List PriceInterval → Type 0
Contiguous p [] = p.start < p.end
Contiguous p (q ∷ prices) = (p.start < p.end) × (q.start ≡ p.end) × Contiguous q prices

head_length :
    (p : PriceInterval) (prices : List PriceInterval) → Contiguous p prices → p.start < p.end
head_length p [] h = h
head_length p (q ∷ prices) h = h.0

-- The interval that holds an instant is found.
abbrev pub Priced : List PriceInterval → ℕ → Type 0
Priced prices t = (q : PriceInterval) × (price_at prices t ≡ some q) × (q.start ≤ t) × (t < q.end)

price_found :
    (p : PriceInterval) (prices : List PriceInterval) (t : ℕ)
    → Contiguous p prices
    → p.start ≤ t
    → t < horizon_end p prices
    → Priced (p ∷ prices) t
unfolding price_at
price_found p [] t h from before = (p, ground arith, from, before)
price_found p (q ∷ prices) t (len, next, h) from before = elim (Bool-cases (ltb t p.end)) [
  | inl inside ↦ (p, ground (arith, inside), from, ground (arith, inside))
  | inr beyond ↦
      let longer : ltb p.end q.end ≡ true = ground (arith, head_length q prices h, next) in
      let (r, found, low, high) =
        price_found q prices t h (ground (arith, beyond, next)) (rw longer at before) in
      (r, ground (arith, beyond, found), low, high)
]

take_before-lt :
    (end : ℕ) (slots : List ℕ) (i t : ℕ) → get_elem? (take_before end slots) i ≡ some t → t < end
take_before-lt end [] i t e = cc
take_before-lt end (s ∷ slots) zero t e = ground (arith, e)
take_before-lt end (s ∷ slots) (suc i) t e = ground (arith, e, take_before-lt end slots i t)

-- With price intervals that leave no gap, every slot that the truncation keeps and that does not
-- begin before the first interval has the price of an interval that holds it: no lookup raises.
pub truncate_to_priced-Priced :
    (p : PriceInterval) (prices : List PriceInterval) (slots : List ℕ) (i t : ℕ)
    → Contiguous p prices
    → get_elem? (truncate_to_priced slots (p ∷ prices)) i ≡ some t
    → p.start ≤ t
    → Priced (p ∷ prices) t
unfolding truncate_to_priced
truncate_to_priced-Priced p prices slots i t h e from =
    price_found p prices t h from (take_before-lt (horizon_end p prices) slots i t e)
