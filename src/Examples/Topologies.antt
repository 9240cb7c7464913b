-- ===== src/Examples/Topologies.antt =====
-- Domain 1 is a provider of domain 2, which has a peering with domain 3 and is a provider of 4.
use cbgp.Base.{map, ℕ, ◌≡◌, ◌↔◌, refl, true, Option, none, some, [], List, ◌∷◌, ◌>>=◌, arith, Bool}
use cbgp.Route.{Route}
use cbgp.AsLevel.{
  asn_of, customer, provider, peer, success, inconsistent, Domain, Topo, topo_check_consistency,
  topo_remove_as,
}
use cbgp.AsLevel.Policies.{policy_path}
use cbgp.AsLevel.ValleyFree.{is_some, policy_path-valley_free}
use cbgp.AsLevel.Consistent.{relation, Mutual, IsSorted, topo_check_consistency_iff}
use cbgp.AsLevel.Removal.{without, topo_remove_as-consistent}
use cbgp.AsLevel.Groups.{stubs, peer_to_peer, without_peers, mark, identify, filtered, topo_filter}
use cbgp.AsLevel.Kept.{outside, topo_filter-consistent}
use cbgp.AsLevel.Connected.{topo_check_connectedness}
use cbgp.AsLevel.Connected.Answer.{Decides, consistent-IsClosed, topo_check_connectedness-Decides}
use cbgp.Examples.Routes.{router, route_a}
use cbgp.Examples.Adverts.{same}
use cbgp.Examples.Filters.{any_path, no_address}

policy_path-valley_free_example :
    (o : Option Route) × (policy_path same any_path no_address router
        ((provider, router) ∷ (peer, router) ∷ (customer, router) ∷ [])
        route_a
      ≡ some o)
    × (is_some o ≡ true)
policy_path-valley_free_example =
    policy_path-valley_free same any_path no_address router
      ((provider, router) ∷ (peer, router) ∷ (customer, router) ∷ []) route_a (tt, (tt, (tt, tt)))
      (refl, refl, omega arith)

abbrev topo : Topo
topo = record {
  domains =
      record { asn = 1; neighbors = record { neighbor = 2; peer_type = customer } ∷ [] }
      ∷ record {
        asn = 2;
        neighbors =
            record { neighbor = 1; peer_type = provider }
            ∷ record { neighbor = 3; peer_type = peer }
            ∷ record { neighbor = 4; peer_type = customer }
            ∷ [];
      }
      ∷ record { asn = 3; neighbors = record { neighbor = 2; peer_type = peer } ∷ [] }
      ∷ record { asn = 4; neighbors = record { neighbor = 2; peer_type = provider } ∷ [] }
      ∷ [];
  newest = none;
  oldest = none;
}

topo-IsSorted : IsSorted topo.domains
topo-IsSorted = (
  (refl, (refl, (refl, (refl, tt)))),
  ((refl, tt), ((refl, (refl, (refl, tt))), ((refl, tt), ((refl, tt), tt)))),
)

runs_check : topo_check_consistency topo ≡ some success
unfolding topo_check_consistency
runs_check = refl

topo_check_consistency_iff_example :
    (topo_check_consistency topo ≡ some success) ↔ Mutual topo.domains
topo_check_consistency_iff_example = topo_check_consistency_iff topo topo-IsSorted

abbrev last_domain : Domain
last_domain = record { asn = 4; neighbors = record { neighbor = 2; peer_type = provider } ∷ [] }

topo_remove_as-consistent_example :
    (u : Topo) × (topo_remove_as topo 4 ≡ some (success, u))
    × ((a b : ℕ) → relation u.domains a b ≡ without 4 topo.domains a b)
    × (topo_check_consistency u ≡ some success)
topo_remove_as-consistent_example =
    topo_remove_as-consistent topo 4 last_domain topo-IsSorted runs_check refl

topo_filter-consistent_example :
    (u : Topo) × (topo_filter stubs topo ≡ some (success, u))
    × ((a b : ℕ) → relation u.domains a b ≡ outside stubs topo.domains a b)
    × (topo_check_consistency u ≡ some success)
topo_filter-consistent_example = topo_filter-consistent stubs topo tt topo-IsSorted runs_check

-- Domain 3, which has no provider, is a stub too.
top_removed : (topo_filter stubs topo >>= λ q. some (map asn_of q.1.domains)) ≡ some (1 ∷ 2 ∷ [])
unfolding topo_filter filtered identify mark
top_removed = refl

-- Where the peers 2 and 3 have providers 1 and 4 of their own, the removal of peer-to-peer links ends
-- at the provider 1 in the links of 2 and takes off only the other direction of the peering.
abbrev two_tops : Topo
two_tops = record {
  domains =
      record { asn = 1; neighbors = record { neighbor = 2; peer_type = customer } ∷ [] }
      ∷ record {
        asn = 2;
        neighbors =
            record { neighbor = 1; peer_type = provider }
            ∷ record { neighbor = 3; peer_type = peer }
            ∷ [];
      }
      ∷ record {
        asn = 3;
        neighbors =
            record { neighbor = 2; peer_type = peer }
            ∷ record { neighbor = 4; peer_type = provider }
            ∷ [];
      }
      ∷ record { asn = 4; neighbors = record { neighbor = 3; peer_type = customer } ∷ [] }
      ∷ [];
  newest = none;
  oldest = none;
}

peerings_half_removed :
    (topo_check_consistency two_tops ≡ some success)
    × ((topo_filter peer_to_peer two_tops >>= λ q. topo_check_consistency q.1) ≡ some inconsistent)
unfolding topo_filter filtered identify mark without_peers topo_check_consistency
peerings_half_removed = (refl, refl)

abbrev always : ℕ → Bool
always k = true

abbrev first_domain : Domain
first_domain = record { asn = 1; neighbors = record { neighbor = 2; peer_type = customer } ∷ [] }

abbrev other_domains : List Domain
other_domains =
    record {
      asn = 2;
      neighbors =
          record { neighbor = 1; peer_type = provider }
          ∷ record { neighbor = 3; peer_type = peer }
          ∷ record { neighbor = 4; peer_type = customer }
          ∷ [];
    }
    ∷ record { asn = 3; neighbors = record { neighbor = 2; peer_type = peer } ∷ [] }
    ∷ last_domain
    ∷ []

topo_check_connectedness-Decides_example :
    Decides (topo_check_connectedness always topo) (first_domain ∷ other_domains) 1
topo_check_connectedness-Decides_example =
    topo_check_connectedness-Decides always topo first_domain other_domains refl
      (consistent-IsClosed topo topo-IsSorted runs_check) (λ k h. refl)
