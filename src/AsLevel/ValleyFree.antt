-- ===== src/AsLevel/ValleyFree.antt =====
-- Where routes go under the filters of an AS-level topology (src/bgp/aslevel/as-level.c).
use mathlib.Core.List.{append-nil}
use cbgp.Base.{
  ℕ, ◌≡◌, refl, ap, sym, ◌∙◌, arith, Bool, true, false, Option, none, some, List, [], ◌∷◌, ◌>>=◌,
  All, map, Bool-cases, inl, inr, if◌then◌else◌,
}
use cbgp.Attr.Path.{AsPath}
use cbgp.Attr.Comm.Laws.{values}
use cbgp.Route.{Route}
use cbgp.Decision.{Router}
use cbgp.AsLevel.{PeerType, customer, provider, peer, sibling, unknown, reverse_relation}
use cbgp.AsLevel.Policies.{received, policy_hop, policy_path}
use cbgp.AsLevel.Tags.{IsUntagged, From, IsClass, is_customer, exports, stripped, values-stripped}
use cbgp.AsLevel.OneLink.{imported, exported}

abbrev pub downhill : List PeerType → Bool
downhill [] = true
downhill (customer ∷ hops) = downhill hops
downhill (_ ∷ hops) = false

-- Up through providers, over one peering at most, and then down through customers.
abbrev pub valley_free : List PeerType → Bool
valley_free [] = true
valley_free (provider ∷ hops) = valley_free hops
valley_free (peer ∷ hops) = downhill hops
valley_free (customer ∷ hops) = downhill hops
valley_free (_ ∷ hops) = false

abbrev pub is_some : Option Route → Bool
is_some none = false
is_some (some r) = true

abbrev pub relations : List (PeerType × Router) → List PeerType
relations hops = map (λ (h : PeerType × Router). h.0) hops

abbrev allowed : PeerType → List PeerType → Bool
allowed from hops = if is_customer from then valley_free hops else downhill hops

reversed : (t : PeerType) → IsClass t → IsClass (reverse_relation t)
reversed customer k = tt
reversed provider k = tt
reversed peer k = tt
reversed sibling k = absurd k
reversed unknown k = absurd k

allowed_on :
    (from to : PeerType) (hops : List PeerType)
    → IsClass from
    → IsClass to
    → exports from to ≡ true
    → allowed (reverse_relation to) hops ≡ allowed from (to ∷ hops)
allowed_on customer customer hops c d x = refl
allowed_on customer provider hops c d x = refl
allowed_on customer peer hops c d x = refl
allowed_on provider customer hops c d x = refl
allowed_on provider provider hops c d x = absurd (cc)
allowed_on provider peer hops c d x = absurd (cc)
allowed_on peer customer hops c d x = refl
allowed_on peer provider hops c d x = absurd (cc)
allowed_on peer peer hops c d x = absurd (cc)
allowed_on sibling to hops c d x = absurd c
allowed_on unknown to hops c d x = absurd c
allowed_on from sibling hops c d x = absurd d
allowed_on from unknown hops c d x = absurd d

not_allowed :
    (from to : PeerType) (hops : List PeerType)
    → IsClass from
    → IsClass to
    → exports from to ≡ false
    → false ≡ allowed from (to ∷ hops)
not_allowed provider provider hops c d x = refl
not_allowed provider peer hops c d x = refl
not_allowed peer provider hops c d x = refl
not_allowed peer peer hops c d x = refl
not_allowed customer to hops c d x = ground (arith, x)
not_allowed provider customer hops c d x = absurd (cc)
not_allowed peer customer hops c d x = absurd (cc)
not_allowed sibling to hops c d x = absurd c
not_allowed unknown to hops c d x = absurd c
not_allowed from sibling hops c d x = absurd d
not_allowed from unknown hops c d x = absurd d

module _ (intern : AsPath → AsPath) (path_match : ℕ → Option AsPath → Option Bool)
    (has_address : ℕ → Bool) where
  abbrev Travels : Router → List (PeerType × Router) → Route → Bool → Type 0
  Travels at hops r b =
      (o : Option Route) × (policy_path intern path_match has_address at hops r ≡ some o)
      × (is_some o ≡ b)

  hop_denied :
      (at : Router) (from to : PeerType) (base : List ℕ) (r : Route) (b : Router)
      → IsClass from
      → IsClass to
      → IsUntagged base
      → From from base r
      → exports from to ≡ false
      → policy_hop intern path_match has_address at b to r ≡ some none
  hop_denied at from to base r b c d h e x =
      ap
        (λ (o : Option (Option Route)).
          o >>= received intern path_match has_address b (reverse_relation to))
        (exported intern path_match has_address at from to base r c d h e
          ∙ ap (λ (t : Bool). some (if t then some (stripped r) else none)) x)

  hop_taken :
      (at : Router) (from to : PeerType) (base : List ℕ) (r : Route) (b : Router)
      → IsClass from
      → IsClass to
      → IsUntagged base
      → From from base r
      → exports from to ≡ true
      → (s : Route) × (policy_hop intern path_match has_address at b to r ≡ some (some s))
        × From (reverse_relation to) base s
  hop_taken at from to base r b c d h e x =
      let (s, p, f, _) =
        imported intern path_match has_address b (reverse_relation to) base (stripped r)
          (reversed to d) h.2 (values-stripped from base r h e) in
      (
        s,
        ap
              (λ (o : Option (Option Route)).
                o >>= received intern path_match has_address b (reverse_relation to))
              (exported intern path_match has_address at from to base r c d h e
                ∙ ap (λ (t : Bool). some (if t then some (stripped r) else none)) x)
            ∙ p,
        f,
      )

  path_allowed :
      (at : Router) (from : PeerType) (hops : List (PeerType × Router)) (base : List ℕ) (r : Route)
      → IsClass from
      → All IsClass (relations hops)
      → IsUntagged base
      → From from base r
      → Travels at hops r (allowed from (relations hops))
  path_allowed at from [] base r c d h e = (some r, refl, arrived from)
    where
      arrived : (t : PeerType) → true ≡ allowed t []
      arrived customer = refl
      arrived _ = refl
  path_allowed at from ((to, b) ∷ hops) base r c d h e = elim (Bool-cases (exports from to)) [
    | inl x ↦
        let (s, p, f) = hop_taken at from to base r b c d.0 h e x in
        let (o, q, y) =
          path_allowed b (reverse_relation to) hops base s (reversed to d.0) d.1 h f in
        (o, rw p q, y ∙ allowed_on from to (relations hops) c d.0 x)
    | inr x ↦ (
      none,
      rw (hop_denied at from to base r b c d.0 h e x) refl,
      not_allowed from to (relations hops) c d.0 x,
    )
  ]

  -- Under the filters of an AS-level topology, a route whose communities are not tags and fewer than
  -- 255, and that its domain originates, gets along a path of domains exactly if the path goes up
  -- through providers, over one peering at most, and then down through customers; none of its links
  -- is one between siblings.
  pub policy_path-valley_free :
      (at : Router) (hops : List (PeerType × Router)) (r : Route)
      → All IsClass (relations hops)
      → IsUntagged (values r.attr.comms)
      → (o : Option Route) × (policy_path intern path_match has_address at hops r ≡ some o)
        × (is_some o ≡ valley_free (relations hops))
  policy_path-valley_free at hops r d h =
      path_allowed at customer hops (values r.attr.comms) r tt d h (sym (append-nil _))
