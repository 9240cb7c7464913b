-- ===== src/AsLevel/Connected/Answer.antt =====
-- The answer of aslevel_topo_check_connectedness (src/bgp/aslevel/as-level.c).
use cbgp.Base.{
  ℕ, suc, ◌+◌, ◌≤◌, ◌<◌, ◌≡◌, refl, subst, arith, Bool, true, false, ◌||◌, ◌⊎◌, inl, inr, Option,
  none, some, List, [], ◌∷◌, length, all, any, ◌==◌, ==_iff, if◌then◌else◌, Bool-cases, In, all-In,
  any_intro, some_injective, ap, sym, ◌∙◌,
}
use cbgp.AsLevel.{Code, success, disconnected, Link, Domain, Topo, find_domain}
use cbgp.AsLevel.Groups.{in_set}
use cbgp.AsLevel.{asn_of, find_link, reverse_relation, topo_check_consistency}
use cbgp.AsLevel.Arrays.{find_at-some}
use cbgp.AsLevel.Consistent.{link_type, links_of, IsSorted, topo_check_consistency_iff, In-relation}
use cbgp.AsLevel.Connected.{search_rounds, search, every_visited, topo_check_connectedness}
use cbgp.AsLevel.Connected.Measure.{unseen, rounds_ahead, stack_rounds, unseen-le, rounds_ahead-le}
use cbgp.AsLevel.Connected.Reached.{
  Reach, here, next, IsClosed, waits, Found, all-Leads, search-Found,
}

-- The visited set is closed under links, so it holds all that is reached.
Reach-visited :
    (ds : List Domain) (first : ℕ) (out : List ℕ) {b : ℕ}
    → in_set out first ≡ true
    → ((a : ℕ) (d : Domain) (l : Link)
        → in_set out a ≡ true
        → find_domain ds a ≡ some d
        → In l d.neighbors
        → (in_set out l.neighbor || false) ≡ true)
    → Reach ds first b
    → in_set out b ≡ true
Reach-visited ds first out h c here = h
Reach-visited ds first out h c (next {a} {b} d l r f i e) =
    subst (λ (n : ℕ). in_set out n ≡ true) e
      (ground (arith, c a d l (Reach-visited ds first out h c r) f i))

not_all :
    (p : Domain → Bool) (ds : List Domain)
    → all p ds ≡ false
    → (d : Domain) × In d ds × (p d ≡ false)
not_all p [] h = absurd (cc)
not_all p (d ∷ ds) h = elim (Bool-cases (p d)) [
  | inl t ↦ let (c, i, q) = not_all p ds (rw t at h) in (c, inr i, q)
  | inr t ↦ (d, inl refl, t)
]

module _ (fits : ℕ → Bool) (d : Domain) (ds : List Domain) (closed : IsClosed (d ∷ ds))
    (room : (k : ℕ) → k < length (d ∷ ds) → fits k ≡ true) where
  own : in_set (d.asn ∷ []) d.asn ≡ true
  own = ground arith

  found_first : find_domain (d ∷ ds) d.asn ≡ some d
  found_first = ground arith

  fuel_first :
      (v : List ℕ)
      → in_set v d.asn ≡ true
      → rounds_ahead (d ∷ ds) v + stack_rounds (d.neighbors ∷ []) ≤ suc (search_rounds (d ∷ ds))
  fuel_first v h = ground (arith, h, rounds_ahead-le ds v)

  room_first : (v : List ℕ) → in_set v d.asn ≡ true → 1 + unseen (d ∷ ds) v ≤ length (d ∷ ds)
  room_first v h = ground (arith, h, unseen-le ds v)

  only_first : (a : ℕ) → in_set (d.asn ∷ []) a ≡ true → d.asn ≡ a
  only_first a i = elim (Bool-cases (d.asn == a)) [
    | inl t ↦ (==_iff d.asn a).0 t
    | inr t ↦ absurd (cc (rw t at i))
  ]

  complete_first :
      (a : ℕ) (e : Domain) (l : Link)
      → in_set (d.asn ∷ []) a ≡ true
      → find_domain (d ∷ ds) a ≡ some e
      → In l e.neighbors
      → (in_set (d.asn ∷ []) l.neighbor || waits (d.neighbors ∷ []) l.neighbor) ≡ true
  complete_first a e l i f j = listed (
      any_intro (λ (k : Link). k.neighbor == l.neighbor) l d.neighbors
        (subst (λ (x : Domain). In l x.neighbors) same j) ((==_iff l.neighbor l.neighbor).1 refl))
    where
      same : e ≡ d
      same =
          some_injective e d
            (sym f ∙ ap (find_domain (d ∷ ds)) (sym (only_first a i)) ∙ found_first)

      listed :
          any (λ (k : Link). k.neighbor == l.neighbor) d.neighbors ≡ true
          → (in_set (d.asn ∷ []) l.neighbor || waits (d.neighbors ∷ []) l.neighbor) ≡ true
      listed h = ground (arith, h)

  search_first :
      Found fits
        (d ∷ ds)
        d.asn
        closed
        room
        (suc (search_rounds (d ∷ ds)))
        (d.neighbors ∷ [])
        (d.asn ∷ [])
  search_first =
      search-Found fits (d ∷ ds) d.asn closed room (suc (search_rounds (d ∷ ds))) (d.neighbors ∷ [])
        (d.asn ∷ []) (fuel_first (d.asn ∷ []) own) (room_first (d.asn ∷ []) own)
        (
          all-Leads fits (d ∷ ds) d.asn closed room d.asn d d.neighbors (λ l i. i) here found_first,
          tt,
        )
        (λ a i. subst (Reach (d ∷ ds) d.asn) (only_first a i) here) complete_first

answered :
    (fits : ℕ → Bool) (t : Topo) (d : Domain) (ds : List Domain) (out : List ℕ)
    → t.domains ≡ d ∷ ds
    → fits 0 ≡ true
    → search fits (suc (search_rounds (d ∷ ds))) (d ∷ ds) (d.neighbors ∷ []) (d.asn ∷ []) ≡ some out
    → topo_check_connectedness fits t ≡ some (every_visited fits (d ∷ ds) out)
unfolding topo_check_connectedness
answered fits t d ds out e h p = rw (e, h, p, topo_check_connectedness) refl

-- What the answer of the test says.
abbrev pub Decides : Option Code → List Domain → ℕ → Type 0
Decides answer ds first =
    ((answer ≡ some success) × ((d : Domain) → In d ds → Reach ds first d.asn))
    ⊎ ((answer ≡ some disconnected) × ((d : Domain) × In d ds × (Reach ds first d.asn → ⊥)))

-- On a topology without dangling links, and with room on the stack for a context of each domain, the
-- test on connectedness comes to an end; it answers success where links lead from the first domain
-- to every other one, and that the topology is disconnected where they do not lead to one of them.
pub topo_check_connectedness-Decides :
    (fits : ℕ → Bool) (t : Topo) (d : Domain) (ds : List Domain)
    → t.domains ≡ d ∷ ds
    → IsClosed (d ∷ ds)
    → ((k : ℕ) → k < length (d ∷ ds) → fits k ≡ true)
    → Decides (topo_check_connectedness fits t) (d ∷ ds) d.asn
topo_check_connectedness-Decides fits t d ds e closed room =
    let (out, p, x, y, z) = search_first fits d ds closed room in
    let q = answered fits t d ds out e (room 0 (omega arith)) p in
    elim (Bool-cases (all (λ c. in_set out c.asn) (d ∷ ds))) [
      | inl h ↦ inl (
        q ∙ ap (λ (b : Bool). some (if b then success else disconnected)) h,
        λ c i. x c.asn (all-In (λ (c : Domain). in_set out c.asn) c (d ∷ ds) h i),
      )
      | inr h ↦
          let (c, i, u) = not_all (λ c. in_set out c.asn) (d ∷ ds) h in
          inr (
            q ∙ ap (λ (b : Bool). some (if b then success else disconnected)) h,
            (
              c,
              i,
              λ r.
                  out_of_reach (in_set out c.asn) u
                    (Reach-visited (d ∷ ds) d.asn out (z d.asn (own fits d ds closed room)) y r),
            ),
          )
    ]
  where
    out_of_reach : (b : Bool) → b ≡ false → b ≡ true → ⊥
    out_of_reach b u v = cc

-- No link of a topology that passes the consistency test dangles.
pub consistent-IsClosed :
    (t : Topo) → IsSorted t.domains → topo_check_consistency t ≡ some success → IsClosed t.domains
consistent-IsClosed t s c a d l f i =
    let m = (topo_check_consistency_iff t s).0 c in
    let (j, e) = find_at-some asn_of t.domains a d f in
    let back = m d.asn l.neighbor l.peer_type (In-relation t.domains d l s j i) in
    there (find_domain t.domains l.neighbor) refl back
  where
    there :
        (o : Option Domain)
        → find_domain t.domains l.neighbor ≡ o
        → link_type (find_link (links_of o) d.asn) ≡ some (reverse_relation l.peer_type)
        → (e : Domain) × (find_domain t.domains l.neighbor ≡ some e)
    there none p q = absurd (cc)
    there (some e) p q = (e, p)
