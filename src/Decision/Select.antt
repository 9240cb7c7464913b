-- ===== src/Decision/Select.antt =====
-- The reference for a decision rule: the routes of the lowest value, in their order.
use cbgp.Base.{
  ℕ, ◌≤◌, ◌≡◌, refl, ap, ◌∙◌, Bool, false, List, [], ◌∷◌, map, arith, leb, le→leb, leb→le, keep,
  all, In, In-keep, keep-In, all_intro, all-In, keep_cong, inl, inr, Bool-cases,
}

module _ {A : Type 0} where
  abbrev pub is_lowest : (A → ℕ) → A → List A → Bool
  is_lowest key a xs = all (λ s. leb (key a) (key s)) xs

  abbrev pub minimal : (A → ℕ) → List A → List A
  minimal key xs = keep (λ a. is_lowest key a xs) xs

  -- `a` is among the minimal elements exactly when it is there and no key is below its own.
  pub In-minimal :
      (key : A → ℕ) (a : A) (xs : List A)
      → In a (minimal key xs)
      → In a xs × ((s : A) → In s xs → key a ≤ key s)
  In-minimal key a xs i =
      let (j, t) = In-keep (λ r. is_lowest key r xs) a xs i in
      (j, λ s k. leb→le _ _ (all-In (λ s. leb (key a) (key s)) s xs t k))

  pub minimal-In :
      (key : A → ℕ) (a : A) (xs : List A)
      → In a xs
      → ((s : A) → In s xs → key a ≤ key s)
      → In a (minimal key xs)
  minimal-In key a xs i h =
      keep-In (λ r. is_lowest key r xs) a xs i
        (all_intro (λ s. leb (key a) (key s)) xs (λ s k. le→leb _ _ (h s k)))

  -- A non-empty list has an element of the lowest key.
  pub lowest-exists :
      (key : A → ℕ) (x : A) (xs : List A)
      → (a : A) × In a (x ∷ xs) × ((s : A) → In s (x ∷ xs) → key a ≤ key s)
  lowest-exists key x [] =
      (x, inl refl, λ s i. elim i [ inl e ↦ rw e (omega arith) | inr j ↦ absurd j ])
  lowest-exists key x (y ∷ xs) =
      let (a, i, h) = lowest-exists key y xs in
      elim (Bool-cases (leb (key x) (key a))) [
        | inl t ↦ (x, inl refl, λ s j. head_lowest a h (leb→le _ _ t) s j)
        | inr t ↦ (a, inr i, λ s j. tail_lowest a h t s j)
      ]
    where
      head_lowest :
          (a : A)
          → ((s : A) → In s (y ∷ xs) → key a ≤ key s)
          → key x ≤ key a
          → (s : A) → In s (x ∷ y ∷ xs)
          → key x ≤ key s
      head_lowest a h t s (inl e) = rw e (omega arith)
      head_lowest a h t s (inr j) = omega (arith, h s j)

      tail_lowest :
          (a : A)
          → ((s : A) → In s (y ∷ xs) → key a ≤ key s)
          → leb (key x) (key a) ≡ false
          → (s : A) → In s (x ∷ y ∷ xs)
          → key a ≤ key s
      tail_lowest a h t s (inl e) = rw e (ground arith)
      tail_lowest a h t s (inr j) = h s j

  pub minimal-single : (key : A → ℕ) (x : A) → minimal key (x ∷ []) ≡ x ∷ []
  minimal-single key x = rw (le→leb (key x) (key x) (omega arith))

-- Selection by a key does not see a change of the elements that keeps the key.
module _ {A B : Type 0} (f : A → B) where
  all-map : (p : B → Bool) (xs : List A) → all p (map f xs) ≡ all (λ a. p (f a)) xs
  all-map p [] = refl
  all-map p (x ∷ xs) = rw (all-map p xs)

  pub keep-map : (p : B → Bool) (xs : List A) → keep p (map f xs) ≡ map f (keep (λ a. p (f a)) xs)
  keep-map p [] = refl
  keep-map p (x ∷ xs) = elim (Bool-cases (p (f x))) [
    | inl e ↦ rw (e, keep-map p xs)
    | inr e ↦ rw (e, keep-map p xs)
  ]

  pub minimal-map :
      (key : B → ℕ) (xs : List A) → minimal key (map f xs) ≡ map f (minimal (λ a. key (f a)) xs)
  minimal-map key xs =
      keep-map (λ b. is_lowest key b (map f xs)) xs
      ∙ ap (map f) (
          keep_cong (λ a. is_lowest key (f a) (map f xs)) (λ a. is_lowest (λ a. key (f a)) a xs) xs
            (λ a _. all-map (λ s. leb (key (f a)) (key s)) xs))
