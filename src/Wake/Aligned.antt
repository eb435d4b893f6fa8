-- ===== src/Wake/Aligned.antt =====
-- The wake times: where they lie and that none is left out.
use energy_optimiser.Prelude.{
  scale_add, ◌-ℤ◌, ◌∙◌, ◌≤◌, ℕ, ◌≤◌, refl, ◌+◌, ◌*◌, ◌/◌, ◌<◌, ◌≡◌, ℤ, pos, negsuc, ◌+ℤ◌, ◌≤ℤ◌,
  ◌<ℤ◌, scale, floor_div, arith, pos_part, neg_part, ap, Bool-cases, inl, inr, leb_ℤ, ◌↔◌, -ℤ_parts,
  +ℤ_parts, scale_parts, eq_of_parts,
}
use native.Mathlib.Nat.{mod-add-div, mod-lt}
use energy_optimiser.Wake.{epoch_s, next_aligned_wake}

-- An instant in seconds lies on a boundary.
abbrev pub IsAligned : ℕ → ℤ → ℤ → Type 0
IsAligned period_s offset_s t = (k : ℤ) × (t ≡ offset_s +ℤ scale period_s k)

mul_le : (k a b : ℕ) → a ≤ b → k * a ≤ k * b
mul_le k a b h = grind (arith, h)

-- The quotient of Python's `//` is the greatest multiple that does not exceed the dividend.
floor_div_lower : (a : ℤ) (p : ℕ) → 0 < p → scale p (floor_div a p) ≤ℤ a
unfolding floor_div
floor_div_lower (pos n) p h = omega (arith, scale_parts p (pos (n / p)), mod-add-div n p)
floor_div_lower (negsuc n) p h =
    omega (arith, scale_parts p (negsuc (n / p)), mod-add-div n p, mod-lt n h)

floor_div_upper : (a : ℤ) (p : ℕ) → 0 < p → a <ℤ scale p (floor_div a p +ℤ pos 1)
unfolding floor_div
floor_div_upper (pos n) p h = rw (scale_add p (pos (n / p)) (pos 1)) (
    omega (
      arith,
      +ℤ_parts (scale p (pos (n / p))) (scale p (pos 1)),
      scale_parts p (pos (n / p)),
      scale_parts p (pos 1),
      mod-add-div n p,
      mod-lt n h,
    ))
floor_div_upper (negsuc n) p h = rw (scale_add p (negsuc (n / p)) (pos 1)) (
    omega (
      arith,
      +ℤ_parts (scale p (negsuc (n / p))) (scale p (pos 1)),
      scale_parts p (negsuc (n / p)),
      scale_parts p (pos 1),
      mod-add-div n p,
      mod-lt n h,
    ))

scale_le : (k : ℕ) (a b : ℤ) → a ≤ℤ b → scale k a ≤ℤ scale k b
scale_le k a b h = omega (
  arith,
  mul_le k (pos_part a + neg_part b) (pos_part b + neg_part a) h,
  scale_parts k a,
  scale_parts k b,
)

lt_of_scale : (k : ℕ) (a b : ℤ) → scale k a <ℤ scale k b → a <ℤ b
lt_of_scale k a b h = elim (Bool-cases (leb_ℤ b a)) [
  | inl e ↦ absurd (omega (arith, h, scale_le k b a (ground (arith, e))))
  | inr e ↦ ground (arith, e)
]

-- A second lies after the clock's instant exactly if it is a later second than the clock's.
second_after : (now : ℕ) (t : ℤ) → pos now <ℤ scale 1_000_000 t ↔ epoch_s now <ℤ t
second_after now t = (
  λ h. omega (arith, h, scale_parts 1_000_000 t, mod-add-div now 1_000_000),
  λ h. omega (
    arith,
    h,
    scale_parts 1_000_000 t,
    mod-add-div now 1_000_000,
    mod-lt now {m = 1_000_000} (omega arith),
  ),
)

scale_suc : (k : ℕ) (a : ℤ) → scale k (a +ℤ pos 1) ≡ scale k a +ℤ pos k
scale_suc k a =
    scale_add k a (pos 1)
    ∙ ap (λ x. scale k a +ℤ x)
        (eq_of_parts (scale k (pos 1)) (pos k) (omega (arith, scale_parts k (pos 1))))

module _ (period_s : ℕ) (a : ℤ) (h : 0 < period_s) where
  multiple_le : scale period_s (floor_div a period_s +ℤ pos 1) ≤ℤ a +ℤ pos period_s
  multiple_le = rw (scale_suc period_s (floor_div a period_s)) (
      omega (
        arith,
        floor_div_lower a period_s h,
        +ℤ_parts (scale period_s (floor_div a period_s)) (pos period_s),
        +ℤ_parts a (pos period_s),
      ))

  -- The only multiple in the period after an instant.
  multiple_unique :
      (k : ℤ)
      → a <ℤ scale period_s k
      → scale period_s k ≤ℤ a +ℤ pos period_s
      → k ≡ floor_div a period_s +ℤ pos 1
  multiple_unique k above below =
      let q = floor_div a period_s in
      let low = lt_of_scale period_s q k (omega (arith, above, floor_div_lower a period_s h)) in
      let below_next : scale period_s k <ℤ scale period_s (q +ℤ pos 1 +ℤ pos 1) =
        rw (scale_suc period_s (q +ℤ pos 1)) (
          omega (
            arith,
            below,
            floor_div_upper a period_s h,
            +ℤ_parts (scale period_s (q +ℤ pos 1)) (pos period_s),
            +ℤ_parts a (pos period_s),
          )) in
      let high = lt_of_scale period_s k (q +ℤ pos 1 +ℤ pos 1) below_next in
      eq_of_parts k (q +ℤ pos 1)
        (omega (arith, low, high, +ℤ_parts q (pos 1), +ℤ_parts (q +ℤ pos 1) (pos 1)))

-- For a positive period an instant in seconds is the next wake time exactly if it lies on a
-- boundary, after the clock's instant and at most a period after the clock's second.
pub next_aligned_wake_lem :
    (period_s now : ℕ) (offset_s t : ℤ)
    → 0 < period_s
    → (t ≡ next_aligned_wake period_s now offset_s)
      ↔ IsAligned period_s offset_s t
        × (pos now <ℤ scale 1_000_000 t)
        × (t ≤ℤ epoch_s now +ℤ pos period_s)
unfolding next_aligned_wake
next_aligned_wake_lem period_s now offset_s t h =
    let a = epoch_s now -ℤ offset_s in
    let k = floor_div a period_s +ℤ pos 1 in
    let split = -ℤ_parts (epoch_s now) offset_s in
    (
      λ e. rw e (
        (k, refl),
        (second_after now (offset_s +ℤ scale period_s k)).1 (
            omega
              (arith, floor_div_upper a period_s h, split, +ℤ_parts offset_s (scale period_s k))),
        omega (
          arith,
          multiple_le period_s a h,
          split,
          +ℤ_parts offset_s (scale period_s k),
          +ℤ_parts a (pos period_s),
          +ℤ_parts (epoch_s now) (pos period_s),
        ),
      ),
      λ ((j, e), after, within).
          e
          ∙ ap (λ x. offset_s +ℤ scale period_s x)
              (multiple_unique period_s a h j
                (omega (
                  arith,
                  (second_after now t).0 after,
                  split,
                  +ℤ_parts offset_s (scale period_s j),
                  ap pos_part e,
                  ap neg_part e,
                ))
                (omega (
                  arith,
                  within,
                  split,
                  +ℤ_parts offset_s (scale period_s j),
                  ap pos_part e,
                  ap neg_part e,
                  +ℤ_parts a (pos period_s),
                  +ℤ_parts (epoch_s now) (pos period_s),
                ))),
    )
