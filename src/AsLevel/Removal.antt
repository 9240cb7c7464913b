-- ===== src/AsLevel/Removal.antt =====
-- The removal of a domain, aslevel_topo_remove_as of src/bgp/aslevel/as-level.c.
use cbgp.Base.{
  ℕ, ◌≡◌, refl, sym, ap, ◌∙◌, arith, Bool, true, false, ◌&&◌, ◌||◌, Option, none, some, List, ◌==◌,
  ==_iff, if◌then◌else◌, All-In, In, Bool-cases, inl, inr, ◌⊎◌,
}
use cbgp.AsLevel.{
  PeerType, reverse_relation, success, Link, Domain, Topo, asn_of, neighbor_of, find_domain,
  find_link, remove_back_links, topo_remove_as, topo_check_consistency,
}
use cbgp.AsLevel.Arrays.{
  find_at-some, find_at-In, find_at-remove_at, remove_at, Distinct, remove_at-Distinct,
  All-remove_at,
}
use cbgp.AsLevel.Consistent.{
  link_type, links_of, relation, Mutual, IsSorted, All_intro, topo_check_consistency_iff,
}
use cbgp.AsLevel.BackLinks.{is_linked, HasBack, remove_back_links_lem}

relation-remove_at :
    (x a b : ℕ) (ds : List Domain)
    → IsSorted ds
    → relation (remove_at asn_of x ds) a b ≡ (if x == a then none else relation ds a b)
relation-remove_at x a b ds s =
    ap (λ (o : Option Domain). link_type (find_link (links_of o) b))
      (find_at-remove_at asn_of x a ds s.0)
    ∙ gone (x == a)
  where
    gone :
        (t : Bool)
        → link_type (find_link (links_of (if t then none else find_domain ds a)) b)
          ≡ (if t then none else relation ds a b)
    gone true = refl
    gone false = refl

-- The relations of a topology without one domain.
abbrev pub without : ℕ → List Domain → ℕ → ℕ → Option PeerType
without x ds a b = if x == a || x == b then none else relation ds a b

without-Mutual :
    (x : ℕ) (ds ds' : List Domain)
    → Mutual ds
    → ((a b : ℕ) → relation ds' a b ≡ without x ds a b)
    → Mutual ds'
without-Mutual x ds ds' m w a b t e = w b a ∙ turned (x == a) (x == b) (sym (w a b) ∙ e)
  where
    turned :
        (u v : Bool)
        → (if u || v then none else relation ds a b) ≡ some t
        → (if v || u then none else relation ds b a) ≡ some (reverse_relation t)
    turned false false h = m a b t h
    turned true v h = absurd (ground (arith, h))
    turned false true h = absurd (cc)

topo_remove_as-found :
    (t : Topo) (x : ℕ) (d : Domain) (ds : List Domain)
    → find_domain t.domains x ≡ some d
    → remove_back_links x d.neighbors t.domains ≡ some ds
    → topo_remove_as t x
      ≡ some (success, record { domains = remove_at asn_of x ds; newest = none; oldest = none })
unfolding topo_remove_as
topo_remove_as-found t x d ds f p = rw (f, p, topo_remove_as) refl

-- Removing a domain of a topology that passes the consistency test, goes through: exactly the
-- relations that the domain takes part in are gone, and the topology passes the test again.
pub topo_remove_as-consistent :
    (t : Topo) (x : ℕ) (d : Domain)
    → IsSorted t.domains
    → topo_check_consistency t ≡ some success
    → find_domain t.domains x ≡ some d
    → (u : Topo) × (topo_remove_as t x ≡ some (success, u))
      × ((a b : ℕ) → relation u.domains a b ≡ without x t.domains a b)
      × (topo_check_consistency u ≡ some success)
topo_remove_as-consistent t x d s c f =
    let m = (topo_check_consistency_iff t s).0 c in
    let i = (find_at-some asn_of t.domains x d f).0 in
    let dl = All-In (λ (d : Domain). Distinct neighbor_of d.neighbors) d t.domains s.1 i in
    let (ds', p, s', q) = remove_back_links_lem x d.neighbors t.domains s dl (
      All_intro (HasBack x t.domains) d.neighbors
        (λ l j. (reverse_relation l.peer_type, m x l.neighbor l.peer_type (own l dl j)))) in
    let w = λ (a b : ℕ).
      relation-remove_at x a b ds' s'
      ∙ ap (λ (o : Option PeerType). if x == a then none else o) (q a b)
      ∙ both a b (x == a) (x == b) (Bool-cases (is_linked d.neighbors a)) (unlinked m a b) in
    let u : Topo = record { domains = remove_at asn_of x ds'; newest = none; oldest = none } in
    (
      u,
      topo_remove_as-found t x d ds' f p,
      w,
      (topo_check_consistency_iff u (
        remove_at-Distinct asn_of x ds' s'.0,
        All-remove_at asn_of (λ (d : Domain). Distinct neighbor_of d.neighbors) x ds' s'.1,
      )).1
          (without-Mutual x t.domains u.domains m w),
    )
  where
    own :
        (l : Link)
        → Distinct neighbor_of d.neighbors
        → In l d.neighbors
        → relation t.domains x l.neighbor ≡ some l.peer_type
    own l dl j =
        ap (λ (o : Option Domain). link_type (find_link (links_of o) l.neighbor)) f
        ∙ ap link_type (find_at-In neighbor_of d.neighbors l dl j)

    unlinked :
        Mutual t.domains
        → (a b : ℕ) → is_linked d.neighbors a ≡ false
        → (x == b) ≡ true
        → relation t.domains a b ≡ none
    unlinked m a b e g = go (relation t.domains a b) refl
      where
        open_link :
            (o : Option Link) (v : PeerType)
            → link_type o ≡ some v
            → (elim o [ none ↦ false | some _ ↦ true ]) ≡ false
            → ⊥
        open_link none v y z = cc
        open_link (some k) v y z = cc

        go : (o : Option PeerType) → relation t.domains a b ≡ o → o ≡ none
        go none y = refl
        go (some v) y =
            let back = m a b v y in
            absurd (
              open_link (find_link d.neighbors a) (reverse_relation v)
                (ap (λ (o : Option Domain). link_type (find_link (links_of o) a)) (sym f)
                  ∙ ap (λ (n : ℕ). relation t.domains n a) ((==_iff x b).0 g)
                  ∙ back)
                e)

    both :
        (a b : ℕ) (xa xb : Bool)
        → (is_linked d.neighbors a ≡ true) ⊎ (is_linked d.neighbors a ≡ false)
        → (is_linked d.neighbors a ≡ false → xb ≡ true → relation t.domains a b ≡ none)
        → (if xa
            then none
            else if is_linked d.neighbors a && xb
            then none
            else relation t.domains a b)
          ≡ (if xa || xb then none else relation t.domains a b)
    both a b true xb k h = refl
    both a b false xb (inl e) h = rw e refl
    both a b false true (inr e) h = rw e (h e refl)
    both a b false false (inr e) h = rw e refl
