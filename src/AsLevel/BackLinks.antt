-- ===== src/AsLevel/BackLinks.antt =====
-- The links back to a domain that is removed, in aslevel_topo_remove_as of
-- src/bgp/aslevel/as-level.c.
use cbgp.Base.{
  ℕ, ◌≡◌, refl, ap, ◌∙◌, arith, Bool, true, false, ◌&&◌, Option, none, some, List, [], ◌∷◌, ◌==◌,
  ==_iff, if◌then◌else◌, ◌>>=◌, All, All-In, In, Bool-cases, inl, inr,
}
use cbgp.AsLevel.{
  PeerType, Link, Domain, asn_of, neighbor_of, find_domain, find_link, drop_link, remove_back_links,
}
use cbgp.AsLevel.Arrays.{
  find_at-some, find_at-In, find_at-remove_at, find_at-change_at, change_at, Distinct,
  remove_at-Distinct, change_at-Distinct, All-change_at,
}
use cbgp.AsLevel.Consistent.{link_type, links_of, relation, IsSorted, All_intro}

change_at-IsSorted :
    (n x : ℕ) (ds : List Domain) → IsSorted ds → IsSorted (change_at asn_of n (drop_link x) ds)
change_at-IsSorted n x ds s = (
  change_at-Distinct asn_of n (drop_link x) ds (λ d. refl) s.0,
  All-change_at asn_of (λ (d : Domain). Distinct neighbor_of d.neighbors) n (drop_link x) ds
      (λ d k. remove_at-Distinct neighbor_of x d.neighbors k) s.1,
)

relation-change_at :
    (n x a b : ℕ) (ds : List Domain)
    → IsSorted ds
    → relation (change_at asn_of n (drop_link x) ds) a b
      ≡ (if n == a && x == b then none else relation ds a b)
relation-change_at n x a b ds s =
    ap (λ (o : Option Domain). link_type (find_link (links_of o) b))
      (find_at-change_at asn_of n a (drop_link x) ds (λ d. refl))
    ∙ here (n == a) (find_domain ds a) (λ d e.
      All-In (λ (d : Domain). Distinct neighbor_of d.neighbors) d ds s.1
        (find_at-some asn_of ds a d e).0)
  where
    dropped :
        (u : Bool) (o : Option Link)
        → link_type (if u then none else o) ≡ (if u then none else link_type o)
    dropped true o = refl
    dropped false o = refl

    here :
        (t : Bool) (o : Option Domain)
        → ((d : Domain) → o ≡ some d → Distinct neighbor_of d.neighbors)
        → link_type (find_link (links_of (if t then (o >>= λ d. some (drop_link x d)) else o)) b)
          ≡ (if t && x == b then none else link_type (find_link (links_of o) b))
    here false o h = refl
    here true none h = ground arith
    here true (some d) h =
        ap link_type (find_at-remove_at neighbor_of x b d.neighbors (h d refl))
        ∙ dropped (x == b) (find_link d.neighbors b)

abbrev pub is_linked : List Link → ℕ → Bool
is_linked ls a = elim (find_link ls a) [ none ↦ false | some _ ↦ true ]

abbrev pub HasBack : ℕ → List Domain → Link → Type 0
HasBack x ds l = (t : PeerType) × (relation ds l.neighbor x ≡ some t)

abbrev Unlinked : ℕ → List Link → List Domain → Type 0
Unlinked x ls ds =
    (ds' : List Domain) × (remove_back_links x ls ds ≡ some ds')
    × IsSorted ds'
    × ((a b : ℕ) → relation ds' a b ≡ (if is_linked ls a && x == b then none else relation ds a b))

pub remove_back_links_lem :
    (x : ℕ) (ls : List Link) (ds : List Domain)
    → IsSorted ds
    → Distinct neighbor_of ls
    → All (HasBack x ds) ls
    → Unlinked x ls ds
remove_back_links_lem x [] ds s d h = (ds, refl, s, λ a b. refl)
remove_back_links_lem x (l ∷ ls) ds s d h =
    let ds1 = change_at asn_of l.neighbor (drop_link x) ds in
    let (ds', p, s', q) =
      remove_back_links_lem x ls ds1 (change_at-IsSorted l.neighbor x ds s) d.1 (
        All_intro (HasBack x ds1) ls
          (λ m i. still m (All-In (HasBack x ds) m ls h.1 i) (others m i))) in
    (
      ds',
      taken (find_domain ds l.neighbor) h.0.0 h.0.1 ∙ p,
      s',
      λ a b.
          joined (find_link ls a) (l.neighbor == a) (x == b) (relation ds a b) (relation ds' a b) (
            q a b
            ∙ ap (λ (o : Option PeerType). if is_linked ls a && x == b then none else o)
                (relation-change_at l.neighbor x a b ds s)),
    )
  where
    others : (m : Link) → In m ls → (l.neighbor == m.neighbor) ≡ false
    others m i = elim (Bool-cases (l.neighbor == m.neighbor)) [
      | inl e ↦
          let found = find_at-In neighbor_of ls m d.1 i in
          absurd (cc (found, d.0, (==_iff l.neighbor m.neighbor).0 e))
      | inr e ↦ e
    ]

    still :
        (m : Link)
        → HasBack x ds m
        → (l.neighbor == m.neighbor) ≡ false
        → HasBack x (change_at asn_of l.neighbor (drop_link x) ds) m
    still m (t, e) f = (
      t,
      relation-change_at l.neighbor x m.neighbor x ds s
          ∙ ap (λ (c : Bool). if c && x == x then none else relation ds m.neighbor x) f
          ∙ e,
    )

    taken :
        (o : Option Domain) (t : PeerType)
        → link_type (find_link (links_of o) x) ≡ some t
        → (o >>= λ c. elim (find_link c.neighbors x) [
          | none ↦ none
          | some _ ↦ remove_back_links x ls (change_at asn_of l.neighbor (drop_link x) ds)
        ])
          ≡ remove_back_links x ls (change_at asn_of l.neighbor (drop_link x) ds)
    taken none t e = absurd (cc)
    taken (some c) t e = answered (find_link c.neighbors x) e
      where
        answered :
            (k : Option Link)
            → link_type k ≡ some t
            → (elim k [
              | none ↦ none
              | some _ ↦ remove_back_links x ls (change_at asn_of l.neighbor (drop_link x) ds)
            ])
              ≡ remove_back_links x ls (change_at asn_of l.neighbor (drop_link x) ds)
        answered none e = absurd (cc)
        answered (some k) e = refl

    joined :
        (o : Option Link) (na xb : Bool) (r q : Option PeerType)
        → q ≡ (
            if (elim o [ none ↦ false | some _ ↦ true ]) && xb
            then none
            else if na && xb
            then none
            else r)
        → q ≡ (
            if (elim (if na then some l else o) [ none ↦ false | some _ ↦ true ]) && xb
            then none
            else r)
    joined none true true r q e = e
    joined none true false r q e = e
    joined none false xb r q e = e
    joined (some k) true true r q e = e
    joined (some k) true false r q e = e
    joined (some k) false true r q e = e
    joined (some k) false false r q e = e
