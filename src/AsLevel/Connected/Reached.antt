-- ===== src/AsLevel/Connected/Reached.antt =====
-- What the search of aslevel_topo_check_connectedness finds (src/bgp/aslevel/as-level.c).
use cbgp.Base.{
  ℕ, zero, suc, ◌+◌, ◌≤◌, ◌<◌, ◌≡◌, refl, subst, arith, Bool, true, false, ◌||◌, ◌⊎◌, inl, inr,
  some, List, [], ◌∷◌, length, any, ◌==◌, ==_iff, Bool-cases, All, In, any_intro, some_injective,
  ap, sym, ◌∙◌,
}
use cbgp.AsLevel.{Link, Domain, find_domain}
use cbgp.AsLevel.Groups.{in_set}
use cbgp.AsLevel.Connected.{search}
use cbgp.AsLevel.Connected.Measure.{
  unseen, rounds_ahead, stack_rounds, unseen-visit, rounds_ahead-visit,
}

-- The domains that links lead to from one domain, whatever the relations.
pub data Reach (ds : List Domain) (from : ℕ) : ℕ → Type 0 where
  here : Reach ds from from
  next :
      {a b : ℕ} (d : Domain) (l : Link)
      → Reach ds from a
      → find_domain ds a ≡ some d
      → In l d.neighbors
      → l.neighbor ≡ b
      → Reach ds from b

-- No link dangles.
abbrev pub IsClosed : List Domain → Type 0
IsClosed ds =
    (a : ℕ) (d : Domain) (l : Link)
    → find_domain ds a ≡ some d
    → In l d.neighbors
    → (e : Domain) × (find_domain ds l.neighbor ≡ some e)

-- The links that the contexts on the stack still have to look at.
abbrev pub waits : List (List Link) → ℕ → Bool
waits [] b = false
waits (ls ∷ stack) b = any (λ l. l.neighbor == b) ls || waits stack b

module _ (fits : ℕ → Bool) (ds : List Domain) (first : ℕ) (closed : IsClosed ds)
    (room : (k : ℕ) → k < length ds → fits k ≡ true) where
  -- A link to look at leads to a domain that can be reached.
  abbrev pub Leads : Link → Type 0
  Leads l = Reach ds first l.neighbor × ((e : Domain) × (find_domain ds l.neighbor ≡ some e))

  abbrev pub Stacked : List (List Link) → Type 0
  Stacked = All (λ (ls : List Link). All Leads ls)

  abbrev pub Sound : List ℕ → Type 0
  Sound v = (a : ℕ) → in_set v a ≡ true → Reach ds first a

  abbrev pub Complete : List ℕ → List (List Link) → Type 0
  Complete v stack =
      (a : ℕ) (d : Domain) (l : Link)
      → in_set v a ≡ true
      → find_domain ds a ≡ some d
      → In l d.neighbors
      → (in_set v l.neighbor || waits stack l.neighbor) ≡ true

  abbrev pub Found : ℕ → List (List Link) → List ℕ → Type 0
  Found fuel stack v =
      (out : List ℕ) × (search fits fuel ds stack v ≡ some out)
      × Sound out
      × Complete out []
      × ((a : ℕ) → in_set v a ≡ true → in_set out a ≡ true)

  pub all-Leads :
      (a : ℕ) (d : Domain) (ls : List Link)
      → ((l : Link) → In l ls → In l d.neighbors)
      → Reach ds first a
      → find_domain ds a ≡ some d
      → All Leads ls
  all-Leads a d [] sub r f = tt
  all-Leads a d (l ∷ ls) sub r f = (
    (next d l r f (sub l (inl refl)) refl, closed a d l f (sub l (inl refl))),
    all-Leads a d ls (λ m i. sub m (inr i)) r f,
  )

  passed :
      (v : List ℕ) (l : Link) (ls : List Link) (stack : List (List Link))
      → in_set v l.neighbor ≡ true
      → Complete v ((l ∷ ls) ∷ stack)
      → Complete v (ls ∷ stack)
  passed v l ls stack h c a d m i f j = elim (Bool-cases (l.neighbor == m.neighbor)) [
    | inl t ↦
        ap (λ (n : ℕ). in_set v n || waits (ls ∷ stack) n)
          (sym ((==_iff l.neighbor m.neighbor).0 t))
        ∙ ap (λ (b : Bool). b || waits (ls ∷ stack) l.neighbor) h
    | inr t ↦ rw t at (c a d m i f j)
  ]

  visited_next :
      (v : List ℕ) (l : Link) (ls : List Link) (stack : List (List Link)) (e : Domain)
      → find_domain ds l.neighbor ≡ some e
      → Complete v ((l ∷ ls) ∷ stack)
      → Complete (l.neighbor ∷ v) (e.neighbors ∷ ls ∷ stack)
  visited_next v l ls stack e g c a d m i f j = elim (Bool-cases (l.neighbor == a)) [
    | inl t ↦
        let q : d ≡ e =
          some_injective d e (sym f ∙ ap (find_domain ds) (sym ((==_iff l.neighbor a).0 t)) ∙ g) in
        listed (
          any_intro (λ (k : Link). k.neighbor == m.neighbor) m e.neighbors
            (subst (λ (x : Domain). In m x.neighbors) q j) ((==_iff m.neighbor m.neighbor).1 refl))
    | inr t ↦ ground (arith, c a d m (rw t at i) f j)
  ]
    where
      listed :
          any (λ (k : Link). k.neighbor == m.neighbor) e.neighbors ≡ true
          → (in_set (l.neighbor ∷ v) m.neighbor || waits (e.neighbors ∷ ls ∷ stack) m.neighbor)
            ≡ true
      listed h = ground (arith, h)

  search_seen :
      (fuel : ℕ) (l : Link) (ls : List Link) (stack : List (List Link)) (v : List ℕ)
      → in_set v l.neighbor ≡ true
      → search fits (suc fuel) ds ((l ∷ ls) ∷ stack) v ≡ search fits fuel ds (ls ∷ stack) v
  unfolding search
  search_seen fuel l ls stack v h = rw (h, search) refl

  search_new :
      (fuel : ℕ) (l : Link) (ls : List Link) (stack : List (List Link)) (v : List ℕ) (e : Domain)
      → in_set v l.neighbor ≡ false
      → find_domain ds l.neighbor ≡ some e
      → fits (suc (length stack)) ≡ true
      → search fits (suc fuel) ds ((l ∷ ls) ∷ stack) v
        ≡ search fits fuel ds (e.neighbors ∷ ls ∷ stack) (l.neighbor ∷ v)
  unfolding search
  search_new fuel l ls stack v e h g k = rw (h, g, k, search) refl

  seen_or : (v : List ℕ) (b a : ℕ) → in_set (b ∷ v) a ≡ true → (b ≡ a) ⊎ (in_set v a ≡ true)
  seen_or v b a h = elim (Bool-cases (b == a)) [
    | inl t ↦ inl ((==_iff b a).0 t)
    | inr t ↦ inr (rw t at h)
  ]

  seen_still : (v : List ℕ) (b a : ℕ) → in_set v a ≡ true → in_set (b ∷ v) a ≡ true
  seen_still v b a h = ground (arith, h)

  pub search-Found :
      (fuel : ℕ) (stack : List (List Link)) (v : List ℕ)
      → rounds_ahead ds v + stack_rounds stack ≤ fuel
      → length stack + unseen ds v ≤ length ds
      → Stacked stack
      → Sound v
      → Complete v stack
      → Found fuel stack v
  unfolding search
  search-Found fuel [] v w n s o c = (v, refl, o, c, λ a h. h)
  search-Found zero (ls ∷ stack) v w n s o c = absurd (omega arith)
  search-Found (suc fuel) ([] ∷ stack) v w n s o c =
      search-Found fuel stack v (omega arith) (omega arith) s.1 o c
  search-Found (suc fuel) ((l ∷ ls) ∷ stack) v w n s o c = elim (Bool-cases (in_set v l.neighbor)) [
    | inl h ↦
        let (out, p, x, y, z) =
          search-Found fuel (ls ∷ stack) v (omega arith) (omega arith) (s.0.1, s.1) o
            (passed v l ls stack h c) in
        (out, search_seen fuel l ls stack v h ∙ p, x, y, z)
    | inr h ↦
        let (e, g) = s.0.0.1 in
        let less = unseen-visit ds v l.neighbor e g h in
        let fewer = rounds_ahead-visit ds v l.neighbor e g h in
        let (out, p, x, y, z) =
          search-Found fuel (e.neighbors ∷ ls ∷ stack) (l.neighbor ∷ v) (omega arith) (omega arith)
            (all-Leads l.neighbor e e.neighbors (λ m i. i) s.0.0.0 g, (s.0.1, s.1))
            (λ a i. elim (seen_or v l.neighbor a i) [
              | inl q ↦ subst (Reach ds first) q s.0.0.0
              | inr j ↦ o a j
            ])
            (visited_next v l ls stack e g c) in
        (
          out,
          search_new fuel l ls stack v e h g (room (suc (length stack)) (omega arith)) ∙ p,
          x,
          y,
          λ a i. z a (seen_still v l.neighbor a i),
        )
  ]
