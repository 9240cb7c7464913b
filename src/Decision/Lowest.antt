-- ===== src/Decision/Lowest.antt =====
-- The two loops that most rules are made of (src/bgp/dp_rules.c): they leave the routes of the
-- lowest value.
use cbgp.Base.{
  ℕ, ◌≤◌, ◌<◌, ◌≡◌, refl, ap, ◌∙◌, true, false, Option, some, List, [], ◌∷◌, arith, leb, ltb,
  le→leb, leb→le, keep, In, all_intro, all-In, keep_cong, keep-none, if◌then◌else◌, inl, inr, ◌⊎◌,
  Bool_of_iff, Bool-cases,
}
use cbgp.Route.{Route}
use cbgp.Decision.{lowest_loop, discard_above, lowest}
use cbgp.Decision.Select.{is_lowest, minimal}

module _ (key : Route → ℕ) where
  -- The lowest of `b` and the keys.
  abbrev pub least : ℕ → List Route → ℕ
  least b [] = b
  least b (r ∷ rs) = least (if ltb (key r) b then key r else b) rs

  pub least-le_init : (b : ℕ) (rs : List Route) → least b rs ≤ b
  least-le_init b [] = omega arith
  least-le_init b (r ∷ rs) = ground (arith, least-le_init (key r) rs, least-le_init b rs)

  pub least-le : (b : ℕ) (rs : List Route) (s : Route) → In s rs → least b rs ≤ key s
  least-le b [] s i = absurd i
  least-le b (r ∷ rs) s (inl e) =
      rw e (ground (arith, least-le_init (key r) rs, least-le_init b rs))
  least-le b (r ∷ rs) s (inr i) = least-le (if ltb (key r) b then key r else b) rs s i

  -- It is one of them.
  pub least_attained :
      (b : ℕ) (rs : List Route) → (least b rs ≡ b) ⊎ ((s : Route) × In s rs × (least b rs ≡ key s))
  least_attained b [] = inl refl
  least_attained b (r ∷ rs) = elim (least_attained (if ltb (key r) b then key r else b) rs) [
    | inr (s, i, e) ↦ inr (s, inr i, e)
    | inl e ↦ elim (Bool-cases (ltb (key r) b)) [
      | inl t ↦ inr (r, inl refl, e ∙ rw t)
      | inr t ↦ inl (e ∙ rw t)
    ]
  ]

module _ (value : Route → Option ℕ) (key : Route → ℕ) where
  abbrev pub HasKey : List Route → Type 0
  HasKey rs = (r : Route) → In r rs → value r ≡ some (key r)

  pub lowest_loop_lem :
      (b : ℕ) (rs : List Route) → HasKey rs → lowest_loop value b rs ≡ some (least key b rs)
  unfolding lowest_loop
  lowest_loop_lem b [] h = refl
  lowest_loop_lem b (r ∷ rs) h =
      rw (h r (inl refl))
        (lowest_loop_lem (if ltb (key r) b then key r else b) rs (λ s i. h s (inr i)))

  pub discard_above_lem :
      (m : ℕ) (rs : List Route)
      → HasKey rs
      → discard_above value m rs ≡ some (keep (λ r. leb (key r) m) rs)
  unfolding discard_above
  discard_above_lem m [] h = refl
  discard_above_lem m (r ∷ rs) h =
      rw (h r (inl refl), discard_above_lem m rs (λ s i. h s (inr i)))
        (elim (Bool-cases (leb (key r) m)) [
          | inl e ↦ rw (e, not_above e)
          | inr e ↦ rw (e, above e)
        ])
    where
      not_above : leb (key r) m ≡ true → ltb m (key r) ≡ false
      not_above e = ground arith

      above : leb (key r) m ≡ false → ltb m (key r) ≡ true
      above e = ground arith

-- Where some key is at most the initial value, keeping what is not above the least keeps exactly
-- the routes of the lowest key.
pub keep-least :
    (key : Route → ℕ) (init : ℕ) (rs : List Route) (s : Route)
    → In s rs
    → key s ≤ init
    → keep (λ r. leb (key r) (least key init rs)) rs ≡ minimal key rs
keep-least key init rs s i k = keep_cong _ _ rs (λ r j. Bool_of_iff _ _ (below r) (above r j))
  where
    below : (r : Route) → leb (key r) (least key init rs) ≡ true → is_lowest key r rs ≡ true
    below r e =
        all_intro (λ t. leb (key r) (key t)) rs
          (λ t j. le→leb _ _ (omega (arith, leb→le _ _ e, least-le key init rs t j)))

    above :
        (r : Route) → In r rs → is_lowest key r rs ≡ true → leb (key r) (least key init rs) ≡ true
    above r j e = elim (least_attained key init rs) [
      | inl q ↦
          le→leb _ _ (omega (arith, q, k, leb→le _ _ (all-In (λ t. leb (key r) (key t)) s rs e i)))
      | inr (t, l, q) ↦
          le→leb _ _ (omega (arith, q, leb→le _ _ (all-In (λ t. leb (key r) (key t)) t rs e l)))
    ]

-- Where some value is at most the initial one, exactly the routes of the lowest value are left.
pub lowest-minimal :
    (value value' : Route → Option ℕ) (key : Route → ℕ) (init : ℕ) (rs : List Route)
    → HasKey value key rs
    → HasKey value' key rs
    → (s : Route) → In s rs
    → key s ≤ init
    → lowest value value' init rs ≡ some (minimal key rs)
unfolding lowest
lowest-minimal value value' key init rs h h' s i k = rw (lowest_loop_lem value key init rs h) (
    discard_above_lem value' key (least key init rs) rs h' ∙ ap some (keep-least key init rs s i k))

-- Where every value is above the initial one, the rule discards every route.
pub lowest-nothing :
    (value : Route → Option ℕ) (key : Route → ℕ) (init : ℕ) (rs : List Route)
    → HasKey value key rs
    → ((r : Route) → In r rs → init < key r)
    → lowest value value init rs ≡ some []
unfolding lowest
lowest-nothing value key init rs h above = rw (lowest_loop_lem value key init rs h) (
    discard_above_lem value key (least key init rs) rs h
    ∙ ap some (keep-none (λ r. leb (key r) (least key init rs)) rs too_high))
  where
    too_high : (r : Route) → In r rs → leb (key r) (least key init rs) ≡ false
    too_high r i = ground (arith, above r i, least-le_init key init rs)
