-- ===== src/AsLevel/Arrays.antt =====
-- Arrays of libgds that are sorted by a number and have every number once, as
-- src/bgp/aslevel/as-level.c keeps domains and links.
use cbgp.Base.{
  ℕ, ◌≡◌, refl, ◌∙◌, arith, Bool, true, false, Option, none, some, List, [], ◌∷◌, ltb, ◌==◌, ==_iff,
  if◌then◌else◌, ◌>>=◌, All, In, keep, Bool-cases, inl, inr, ap,
}

module _ {A : Type 0} (key : A → ℕ) where
  -- ptr_array_sorted_find_index.
  abbrev pub find_at : List A → ℕ → Option A
  find_at [] k = none
  find_at (x ∷ xs) k = let rest = find_at xs k in if key x == k then some x else rest

  -- ptr_array_add. `none` is a duplicate.
  abbrev pub insert_at : A → List A → Option (List A)
  insert_at y [] = some (y ∷ [])
  insert_at y (x ∷ xs) =
      let rest = insert_at y xs in
      if ltb (key y) (key x)
      then some (y ∷ x ∷ xs)
      else (if key y == key x then none else (rest >>= λ r. some (x ∷ r)))

  -- ptr_array_remove_at, at the place that was found.
  abbrev pub remove_at : ℕ → List A → List A
  remove_at k [] = []
  remove_at k (x ∷ xs) = let rest = remove_at k xs in if key x == k then xs else x ∷ rest

  -- A change behind the pointer that was found.
  abbrev pub change_at : ℕ → (A → A) → List A → List A
  change_at k f [] = []
  change_at k f (x ∷ xs) = let rest = change_at k f xs in if key x == k then f x ∷ xs else x ∷ rest

  abbrev pub Distinct : List A → Type 0
  Distinct [] = Unit
  Distinct (x ∷ xs) = (find_at xs (key x) ≡ none) × Distinct xs

  pub find_at-some : (xs : List A) (k : ℕ) (x : A) → find_at xs k ≡ some x → In x xs × (key x ≡ k)
  find_at-some [] k x e = absurd (cc)
  find_at-some (y ∷ ys) k x e = elim (Bool-cases (key y == k)) [
    | inl t ↦ let q : x ≡ y = cc (rw t at e) in (inl q, ap key q ∙ (==_iff (key y) k).0 t)
    | inr t ↦ let (i, q) = find_at-some ys k x (rw t at e) in (inr i, q)
  ]

  pub find_at-In : (xs : List A) (x : A) → Distinct xs → In x xs → find_at xs (key x) ≡ some x
  find_at-In [] x d i = absurd i
  find_at-In (y ∷ ys) x d (inl e) = rw e (ground arith)
  find_at-In (y ∷ ys) x d (inr i) = ground (arith, d.0, find_at-In ys x d.1 i)

  pub find_at-remove_at :
      (k j : ℕ) (xs : List A)
      → Distinct xs
      → find_at (remove_at k xs) j ≡ (if k == j then none else find_at xs j)
  find_at-remove_at k j [] d = ground arith
  find_at-remove_at k j (x ∷ xs) d = ground (arith, d.0, find_at-remove_at k j xs d.1)

  pub find_at-change_at :
      (k j : ℕ) (f : A → A) (xs : List A)
      → ((x : A) → key (f x) ≡ key x)
      → find_at (change_at k f xs) j
        ≡ (if k == j then (find_at xs j >>= λ x. some (f x)) else find_at xs j)
  find_at-change_at k j f [] h = ground arith
  find_at-change_at k j f (x ∷ xs) h = ground (arith, h x, find_at-change_at k j f xs h)

  pub find_at-keep :
      (p : ℕ → Bool) (j : ℕ) (xs : List A)
      → find_at (keep (λ x. p (key x)) xs) j ≡ (if p j then find_at xs j else none)
  find_at-keep p j [] = ground arith
  find_at-keep p j (x ∷ xs) = ground (arith, find_at-keep p j xs)

  pub remove_at-Distinct : (k : ℕ) (xs : List A) → Distinct xs → Distinct (remove_at k xs)
  remove_at-Distinct k [] d = tt
  remove_at-Distinct k (x ∷ xs) d = go (key x == k) (remove_at-Distinct k xs d.1)
    where
      kept : (b : Bool) → (if b then none else find_at xs (key x)) ≡ none
      kept true = refl
      kept false = d.0

      go : (b : Bool) → Distinct (remove_at k xs) → Distinct (if b then xs else x ∷ remove_at k xs)
      go true ih = d.1
      go false ih = (find_at-remove_at k (key x) xs d.1 ∙ kept (k == key x), ih)

  pub change_at-Distinct :
      (k : ℕ) (f : A → A) (xs : List A)
      → ((x : A) → key (f x) ≡ key x)
      → Distinct xs
      → Distinct (change_at k f xs)
  change_at-Distinct k f [] h d = tt
  change_at-Distinct k f (x ∷ xs) h d = go (key x == k) (change_at-Distinct k f xs h d.1)
    where
      kept :
          (b : Bool)
          → (if b then (find_at xs (key x) >>= λ y. some (f y)) else find_at xs (key x)) ≡ none
      kept true = rw d.0 refl
      kept false = d.0

      go :
          (b : Bool)
          → Distinct (change_at k f xs)
          → Distinct (if b then f x ∷ xs else x ∷ change_at k f xs)
      go true ih = (ap (find_at xs) (h x) ∙ d.0, d.1)
      go false ih = (find_at-change_at k (key x) f xs h ∙ kept (k == key x), ih)

  pub keep-Distinct :
      (p : ℕ → Bool) (xs : List A) → Distinct xs → Distinct (keep (λ x. p (key x)) xs)
  keep-Distinct p [] d = tt
  keep-Distinct p (x ∷ xs) d = go (p (key x)) (keep-Distinct p xs d.1)
    where
      kept : (b : Bool) → (if b then find_at xs (key x) else none) ≡ none
      kept true = d.0
      kept false = refl

      go :
          (b : Bool)
          → Distinct (keep (λ y. p (key y)) xs)
          → Distinct (if b then x ∷ keep (λ y. p (key y)) xs else keep (λ y. p (key y)) xs)
      go true ih = (find_at-keep p (key x) xs ∙ kept (p (key x)), ih)
      go false ih = ih

  pub All-change_at :
      (P : A → Type 0) (k : ℕ) (f : A → A) (xs : List A)
      → ((x : A) → P x → P (f x))
      → All P xs
      → All P (change_at k f xs)
  All-change_at P k f [] h a = tt
  All-change_at P k f (x ∷ xs) h a = go (key x == k) (All-change_at P k f xs h a.1)
    where
      go :
          (b : Bool)
          → All P (change_at k f xs)
          → All P (if b then f x ∷ xs else x ∷ change_at k f xs)
      go true ih = (h x a.0, a.1)
      go false ih = (a.0, ih)

  pub All-remove_at : (P : A → Type 0) (k : ℕ) (xs : List A) → All P xs → All P (remove_at k xs)
  All-remove_at P k [] a = tt
  All-remove_at P k (x ∷ xs) a = go (key x == k) (All-remove_at P k xs a.1)
    where
      go : (b : Bool) → All P (remove_at k xs) → All P (if b then xs else x ∷ remove_at k xs)
      go true ih = a.1
      go false ih = (a.0, ih)
