-- ===== src/AsLevel/Kept.antt =====
-- What the removal of a group of domains keeps (src/bgp/aslevel/filter.c).
use cbgp.Base.{
  ℕ, ◌≡◌, refl, sym, ap, ◌∙◌, arith, Bool, true, false, not, ◌||◌, Option, none, some, List, [],
  ◌∷◌, map, if◌then◌else◌, ◌>>=◌,
}
use cbgp.AsLevel.{
  PeerType, reverse_relation, success, Link, Domain, Topo, asn_of, neighbor_of, find_domain,
  find_link, topo_check_consistency,
}
use cbgp.AsLevel.Arrays.{find_at-keep, Distinct, keep-Distinct}
use cbgp.AsLevel.Consistent.{
  link_type, links_of, relation, Mutual, DistinctLinks, IsSorted, topo_check_consistency_iff,
}
use cbgp.AsLevel.Groups.{
  Group, stubs, single_homed_stubs, peer_to_peer, keep_top, other, in_set, identify,
  without_links_to, without_set, numbers, filtered, topo_filter,
}
use cbgp.AsLevel.Identified.{IsGroup, member, identify_all}

find_at-map :
    (f : Domain → Domain) (ds : List Domain) (a : ℕ)
    → ((d : Domain) → asn_of (f d) ≡ asn_of d)
    → find_domain (map f ds) a ≡ (find_domain ds a >>= λ d. some (f d))
find_at-map f [] a h = refl
find_at-map f (d ∷ ds) a h = ground (arith, h d, find_at-map f ds a h)

relation-without_set :
    (set : List ℕ) (ds : List Domain) (a b : ℕ)
    → relation (without_set set ds) a b
      ≡ (if in_set set a || in_set set b then none else relation ds a b)
relation-without_set set ds a b =
    ap (λ (o : Option Domain). link_type (find_link (links_of o) b))
      (find_at-keep asn_of (λ n. not (in_set set n)) a (map (without_links_to set) ds)
        ∙ ap (λ (o : Option Domain). if not (in_set set a) then o else none)
            (find_at-map (without_links_to set) ds a (λ d. refl)))
    ∙ shown (in_set set a) (find_domain ds a)
  where
    linked :
        (t : Bool) (o : Option Link)
        → link_type (if not t then o else none) ≡ (if t then none else link_type o)
    linked true o = refl
    linked false o = refl

    shown :
        (t : Bool) (o : Option Domain)
        → link_type (
            find_link
              (links_of (if not t then (o >>= λ d. some (without_links_to set d)) else none))
              b)
          ≡ (if t || in_set set b then none else link_type (find_link (links_of o) b))
    shown true o = refl
    shown false none = ground arith
    shown false (some d) =
        ap link_type (find_at-keep neighbor_of (λ n. not (in_set set n)) b d.neighbors)
        ∙ linked (in_set set b) (find_link d.neighbors b)

without_set-Mutual : (set : List ℕ) (ds : List Domain) → Mutual ds → Mutual (without_set set ds)
without_set-Mutual set ds m a b t e =
    relation-without_set set ds b a
    ∙ turned (in_set set a) (in_set set b) (sym (relation-without_set set ds a b) ∙ e)
  where
    turned :
        (u v : Bool)
        → (if u || v then none else relation ds a b) ≡ some t
        → (if v || u then none else relation ds b a) ≡ some (reverse_relation t)
    turned false false h = m a b t h
    turned true v h = absurd (ground (arith, h))
    turned false true h = absurd (cc)

map-Distinct :
    (set : List ℕ) (ds : List Domain)
    → Distinct asn_of ds
    → Distinct asn_of (map (without_links_to set) ds)
map-Distinct set [] h = tt
map-Distinct set (d ∷ ds) h = (
  find_at-map (without_links_to set) ds d.asn (λ c. refl)
      ∙ ap (λ (o : Option Domain). o >>= λ c. some (without_links_to set c)) h.0,
  map-Distinct set ds h.1,
)

without_set-DistinctLinks :
    (set : List ℕ) (ds : List Domain) → DistinctLinks ds → DistinctLinks (without_set set ds)
without_set-DistinctLinks set [] h = tt
without_set-DistinctLinks set (d ∷ ds) h =
    go (not (in_set set d.asn)) (without_set-DistinctLinks set ds h.1)
  where
    go :
        (b : Bool)
        → DistinctLinks (without_set set ds)
        → DistinctLinks
            (if b then without_links_to set d ∷ without_set set ds else without_set set ds)
    go true ih = (keep-Distinct neighbor_of (λ n. not (in_set set n)) d.neighbors h.0, ih)
    go false ih = ih

without_set-IsSorted :
    (set : List ℕ) (ds : List Domain) → IsSorted ds → IsSorted (without_set set ds)
without_set-IsSorted set ds s = (
  keep-Distinct asn_of (λ n. not (in_set set n)) (map (without_links_to set) ds)
      (map-Distinct set ds s.0),
  without_set-DistinctLinks set ds s.1,
)

topo_filter-filtered :
    (g : Group) (t : Topo) (out : List ℕ)
    → IsGroup g
    → identify g (numbers t.domains) t.domains [] ≡ some (out, t.domains)
    → topo_filter g t ≡ some (success, record t { domains = without_set out t.domains })
unfolding topo_filter filtered
topo_filter-filtered stubs t out i p = rw (p, filtered) refl
topo_filter-filtered single_homed_stubs t out i p = rw (p, filtered) refl
topo_filter-filtered keep_top t out i p = rw (p, filtered) refl
topo_filter-filtered peer_to_peer t out i p = absurd i
topo_filter-filtered other t out i p = absurd i

-- The group's domains are out, and so are the relations with them.
abbrev pub outside : Group → List Domain → ℕ → ℕ → Option PeerType
outside g ds a b =
    if member g (find_domain ds a) || member g (find_domain ds b) then none else relation ds a b

-- On a topology that passes the consistency test, the removal of the stubs (all domains without
-- customers, top domains included), of the single-homed stubs (without customers and with one
-- provider) or of all domains that have a provider goes through: exactly the relations in which a
-- domain of the group takes part are gone, and the topology passes the test again.
pub topo_filter-consistent :
    (g : Group) (t : Topo)
    → IsGroup g
    → IsSorted t.domains
    → topo_check_consistency t ≡ some success
    → (u : Topo) × (topo_filter g t ≡ some (success, u))
      × ((a b : ℕ) → relation u.domains a b ≡ outside g t.domains a b)
      × (topo_check_consistency u ≡ some success)
topo_filter-consistent g t i s c =
    let (out, p, q) = identify_all g t.domains i in
    let m = (topo_check_consistency_iff t s).0 c in
    let u = record t { domains = without_set out t.domains } in
    (
      u,
      topo_filter-filtered g t out i p,
      λ a b.
          relation-without_set out t.domains a b
          ∙ ap (λ (x : Bool). if x || in_set out b then none else relation t.domains a b) (q a)
          ∙ ap
              (λ (x : Bool).
                if member g (find_domain t.domains a) || x then none else relation t.domains a b)
              (q b),
      (topo_check_consistency_iff u (without_set-IsSorted out t.domains s)).1
          (without_set-Mutual out t.domains m),
    )
