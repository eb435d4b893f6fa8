-- ===== src/Lp/Linear/Laws.antt =====
-- What it means that a list of constraints is satisfied.
use energy_optimiser.Prelude.{
  ℕ, zero, suc, ◌+◌, ◌≡◌, refl, some, List, [], ◌∷◌, ◌++◌, get_elem?, arith, subst,
}
use energy_optimiser.Lp.Linear.{Assignment, Constraint, Satisfied, for_slots}

module _ (a : Assignment) where
  pub Satisfied-append :
      (xs ys : List Constraint) → Satisfied a (xs ++ ys) → Satisfied a xs × Satisfied a ys
  Satisfied-append [] ys h = (tt, h)
  Satisfied-append (x ∷ xs) ys (p, h) = let (l, r) = Satisfied-append xs ys h in ((p, l), r)

  pub append-Satisfied :
      (xs ys : List Constraint) → Satisfied a xs → Satisfied a ys → Satisfied a (xs ++ ys)
  append-Satisfied [] ys l r = r
  append-Satisfied (x ∷ xs) ys (p, l) r = (p, append-Satisfied xs ys l r)

module _ {ℓ} {A : Type ℓ} (a : Assignment) (body : ℕ → A → List Constraint) where
  -- The constraints of one slot, out of those of all.
  pub for_slots-get :
      (t : ℕ) (slots : List A) (i : ℕ) (s : A)
      → Satisfied a (for_slots t slots body)
      → get_elem? slots i ≡ some s
      → Satisfied a (body (t + i) s)
  for_slots-get t [] i s h e = cc
  for_slots-get t (x ∷ slots) zero s h e =
      let same : x ≡ s = cc in
      let first : t ≡ t + 0 = omega arith in
      subst (λ y. Satisfied a (body (t + 0) y)) same
        (subst (λ k. Satisfied a (body k x)) first (Satisfied-append a (body t x) _ h).0)
  for_slots-get t (x ∷ slots) (suc i) s h e =
      let later : suc t + i ≡ t + suc i = omega arith in
      subst (λ k. Satisfied a (body k s)) later
        (for_slots-get (suc t) slots i s (Satisfied-append a (body t x) _ h).1 e)

  -- They hold together if those of each slot do.
  pub for_slots-all :
      (t : ℕ) (slots : List A)
      → ((i : ℕ) (s : A) → get_elem? slots i ≡ some s → Satisfied a (body (t + i) s))
      → Satisfied a (for_slots t slots body)
  for_slots-all t [] h = tt
  for_slots-all t (x ∷ slots) h =
      let first : t + 0 ≡ t = omega arith in
      append-Satisfied a (body t x) _ (subst (λ k. Satisfied a (body k x)) first (h 0 x refl)) (
        for_slots-all (suc t) slots (λ i s e.
          let later : t + suc i ≡ suc t + i = omega arith in
          subst (λ k. Satisfied a (body k s)) later (h (suc i) s e)))

module _ {ℓ} {A : Type ℓ} (a : Assignment) (body : ℕ → A → List Constraint) where
  -- From the first slot on.
  pub for_slots-at :
      (slots : List A) (i : ℕ) (s : A)
      → Satisfied a (for_slots 0 slots body)
      → get_elem? slots i ≡ some s
      → Satisfied a (body i s)
  for_slots-at slots i s h e =
      let same : 0 + i ≡ i = omega arith in
      subst (λ k. Satisfied a (body k s)) same (for_slots-get a body 0 slots i s h e)

  pub for_slots-every :
      (slots : List A)
      → ((i : ℕ) (s : A) → get_elem? slots i ≡ some s → Satisfied a (body i s))
      → Satisfied a (for_slots 0 slots body)
  for_slots-every slots h = for_slots-all a body 0 slots (λ i s e.
      let same : i ≡ 0 + i = omega arith in subst (λ k. Satisfied a (body k s)) same (h i s e))
