-- ===== src/Decision/Choice.antt =====
-- Rules as choices among candidates, applied one after the other: the abstract decision process
-- that the code of src/bgp/dp_rules.c is compared with.
use cbgp.Base.{
  ℕ, ◌≤◌, ◌≡◌, ◌≢◌, refl, sym, ◌∙◌, Bool, true, List, [], ◌∷◌, map, arith, keep, All, In, In-keep,
  keep-In, inl, inr, Bool-cases, ltb, ltb→lt, subst,
}
use cbgp.Route.{Route}
use cbgp.Decision.Select.{is_lowest, minimal, In-minimal, minimal-In, lowest-exists}
use cbgp.Decision.Keys.{LexLe}

-- Which of the candidates stay.
abbrev pub Choice : Type 0
Choice = List Route → Route → Bool

abbrev pub select : Choice → List Route → List Route
select p rs = keep (p rs) rs

abbrev pub refine : List Choice → List Route → List Route
refine [] rs = rs
refine (p ∷ ps) rs = refine ps (select p rs)

abbrev pub by_key : (Route → ℕ) → Choice
by_key key rs r = is_lowest key r rs

-- Some candidate stays.
abbrev pub Leaves : Choice → Type 0
Leaves p = (x : Route) (xs : List Route) → (a : Route) × In a (x ∷ xs) × (p (x ∷ xs) a ≡ true)

pub by_key-Leaves : (key : Route → ℕ) → Leaves (by_key key)
by_key-Leaves key x xs =
    let (a, i, h) = lowest-exists key x xs in
    (a, i, (In-keep (by_key key (x ∷ xs)) a (x ∷ xs) (minimal-In key a (x ∷ xs) i h)).1)

pub refine-In : (ps : List Choice) (r : Route) (rs : List Route) → In r (refine ps rs) → In r rs
refine-In [] r rs i = i
refine-In (p ∷ ps) r rs i = (In-keep (p rs) r rs (refine-In ps r (select p rs) i)).0

pub refine-nil : (ps : List Choice) → refine ps [] ≡ []
refine-nil [] = refl
refine-nil (p ∷ ps) = refine-nil ps

pub refine-cons :
    (ps : List Choice) (x : Route) (xs : List Route)
    → All Leaves ps
    → (y : Route) × (ys : List Route) × (refine ps (x ∷ xs) ≡ y ∷ ys)
refine-cons [] x xs h = (x, xs, refl)
refine-cons (p ∷ ps) x xs h = go (select p (x ∷ xs)) refl (λ y ys. refine-cons ps y ys h.1)
  where
    go :
        (zs : List Route)
        → select p (x ∷ xs) ≡ zs
        → ((y : Route) (ys : List Route)
            → (z : Route) × (zs' : List Route) × (refine ps (y ∷ ys) ≡ z ∷ zs'))
        → (y : Route) × (ys : List Route) × (refine ps zs ≡ y ∷ ys)
    go [] e next =
        let (a, i, t) = h.0 x xs in absurd (subst (In a) e (keep-In (p (x ∷ xs)) a (x ∷ xs) i t))
    go (y ∷ ys) e next = next y ys

-- A single candidate stays.
pub refine-single : (ps : List Choice) (x : Route) → All Leaves ps → refine ps (x ∷ []) ≡ x ∷ []
refine-single [] x h = refl
refine-single (p ∷ ps) x h = rw (stays (h.0 x [])) (refine-single ps x h.1)
  where
    stays : (a : Route) × In a (x ∷ []) × (p (x ∷ []) a ≡ true) → p (x ∷ []) x ≡ true
    stays (a, inl e, t) = subst (λ b. p (x ∷ []) b ≡ true) e t
    stays (a, inr i, t) = absurd i

-- What is left by a list of keys is lexicographically the best.
pub refine-LexLe :
    (keys : List (Route → ℕ)) (r s : Route) (rs : List Route)
    → In r (refine (map by_key keys) rs)
    → In s rs
    → LexLe keys r s
refine-LexLe [] r s rs i j = tt
refine-LexLe (k ∷ keys) r s rs i j = elim (Bool-cases (ltb (k r) (k s))) [
  | inl e ↦ inl (ltb→lt _ _ e)
  | inr e ↦
      let same : k r ≡ k s = ground (arith, e, here.1 s j) in
      let t : In s (minimal k rs) = minimal-In k s rs j (λ u l. omega (arith, same, here.1 u l)) in
      inr (same, refine-LexLe keys r s (minimal k rs) i t)
]
  where
    here : In r rs × ((t : Route) → In t rs → k r ≤ k t)
    here = In-minimal k r rs (refine-In (map by_key keys) r (minimal k rs) i)

-- Pairwise different keys.
abbrev pub Distinct : (Route → ℕ) → List Route → Type 0
Distinct key [] = Unit
Distinct key (r ∷ rs) = All (λ s. key r ≢ key s) rs × Distinct key rs

All-keep : (P : Route → Type 0) (p : Route → Bool) (rs : List Route) → All P rs → All P (keep p rs)
All-keep P p [] h = tt
All-keep P p (r ∷ rs) h = elim (Bool-cases (p r)) [
  | inl e ↦ rw e (h.0, All-keep P p rs h.1)
  | inr e ↦ rw e (All-keep P p rs h.1)
]

keep-Distinct :
    (key : Route → ℕ) (p : Route → Bool) (rs : List Route)
    → Distinct key rs
    → Distinct key (keep p rs)
keep-Distinct key p [] d = tt
keep-Distinct key p (r ∷ rs) d = elim (Bool-cases (p r)) [
  | inl e ↦ rw e (All-keep _ p rs d.0, keep-Distinct key p rs d.1)
  | inr e ↦ rw e (keep-Distinct key p rs d.1)
]

pub refine-Distinct :
    (key : Route → ℕ) (ps : List Choice) (rs : List Route)
    → Distinct key rs
    → Distinct key (refine ps rs)
refine-Distinct key [] rs d = d
refine-Distinct key (p ∷ ps) rs d =
    refine-Distinct key ps (select p rs) (keep-Distinct key (p rs) rs d)

pub map-Distinct :
    (key : Route → ℕ) (f : Route → Route) (rs : List Route)
    → ((r : Route) → key (f r) ≡ key r)
    → Distinct key rs
    → Distinct key (map f rs)
map-Distinct key f [] h d = tt
map-Distinct key f (r ∷ rs) h d = (all_differ rs d.0, map-Distinct key f rs h d.1)
  where
    all_differ :
        (xs : List Route) → All (λ s. key r ≢ key s) xs → All (λ s. key (f r) ≢ key s) (map f xs)
    all_differ [] a = tt
    all_differ (x ∷ xs) a = (λ e. a.0 (sym (h r) ∙ e ∙ h x), all_differ xs a.1)

-- Among candidates of different keys a key selects one.
pub minimal-Distinct :
    (key : Route → ℕ) (x : Route) (xs : List Route)
    → Distinct key (x ∷ xs)
    → (a : Route) × (minimal key (x ∷ xs) ≡ a ∷ [])
minimal-Distinct key x xs d =
    go (minimal key (x ∷ xs)) (keep-Distinct key (by_key key (x ∷ xs)) (x ∷ xs) d) refl
  where
    least : (a : Route) × In a (x ∷ xs) × ((s : Route) → In s (x ∷ xs) → key a ≤ key s)
    least = lowest-exists key x xs

    go :
        (ys : List Route)
        → Distinct key ys
        → minimal key (x ∷ xs) ≡ ys
        → (a : Route) × (minimal key (x ∷ xs) ≡ a ∷ [])
    go [] d' e = absurd (rw e at (minimal-In key least.0 (x ∷ xs) least.1 least.2))
    go (y ∷ []) d' e = (y, e)
    go (y ∷ z ∷ ys) d' e =
        let iy = In-minimal key y (x ∷ xs) (rw e (inl refl)) in
        let iz = In-minimal key z (x ∷ xs) (rw e (inr (inl refl))) in
        absurd (d'.0.0 (omega (arith, iy.1 z iz.0, iz.1 y iy.0)))
