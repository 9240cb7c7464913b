-- ===== src/AsLevel/Tags.antt =====
-- The tags that the filters of src/bgp/aslevel/as-level.c put on a route and take off it.
use mathlib.Core.List.{append-nil}
use cbgp.Base.{
  ℕ, ◌<◌, ◌≡◌, refl, ap, sym, ◌∙◌, arith, Bool, true, false, ◌||◌, Option, none, some, List, [],
  ◌∷◌, ◌++◌, length, lt→ltb,
}
use cbgp.Attr.Comm.{comms_add, comms_remove, comms_contains, contains_value}
use cbgp.Attr.Comm.Laws.{values, without, comms_remove_lem}
use cbgp.Route.{Route}
use cbgp.Advertise.{values_of}
use cbgp.AsLevel.{PeerType, customer, provider, peer, sibling, unknown}
use cbgp.AsLevel.Policies.{comm_prov, comm_peer}

pub contains_value-append :
    (xs ys : List ℕ) (a : ℕ)
    → contains_value (xs ++ ys) a ≡ (contains_value xs a || contains_value ys a)
contains_value-append [] ys a = refl
contains_value-append (x ∷ xs) ys a = ground (arith, contains_value-append xs ys a)

without_absent : (a : ℕ) (xs : List ℕ) → contains_value xs a ≡ false → without a xs ≡ xs
without_absent a [] h = refl
without_absent a (x ∷ xs) h = ground (arith, h, without_absent a xs)

without-append : (a : ℕ) (xs ys : List ℕ) → without a (xs ++ ys) ≡ without a xs ++ without a ys
without-append a [] ys = refl
without-append a (x ∷ xs) ys = ground (arith, without-append a xs ys)

pub comms_contains-values :
    (c : Option (List ℕ)) (a : ℕ) → comms_contains c a ≡ contains_value (values c) a
unfolding comms_contains
comms_contains-values none a = refl
comms_contains-values (some c) a = refl

-- The tag of a route from a neighbor.
abbrev pub tag : PeerType → List ℕ
tag provider = comm_prov ∷ []
tag peer = comm_peer ∷ []
tag _ = []

-- The communities that a route came with, which have no tag.
abbrev pub IsUntagged : List ℕ → Type 0
IsUntagged base =
    (contains_value base comm_prov ≡ false)
    × (contains_value base comm_peer ≡ false)
    × (length base < 255)

-- A route with these communities, and the tag of the neighbor that it is from.
abbrev pub From : PeerType → List ℕ → Route → Type 0
From t base r = values r.attr.comms ≡ base ++ tag t

pub comms_add_free :
    (c : Option (List ℕ)) (base : List ℕ) (a : ℕ)
    → values c ≡ base
    → length base < 255
    → comms_add (values_of c) a ≡ some (base ++ a ∷ [])
unfolding comms_add
comms_add_free none base a e h = rw (sym e) refl
comms_add_free (some c) base a e h = rw (e, lt→ltb (length base) 255 h) refl

-- What an input filter makes of a route.
abbrev pub tagged_route : Route → List ℕ → ℕ → ℕ → Route
tagged_route r base a pref = record r {
  attr = record (r.attr) { comms = some (base ++ a ∷ []); local_pref = pref };
}

-- The three relations that the filters tell apart.
abbrev pub IsClass : PeerType → Type 0
IsClass customer = Unit
IsClass provider = Unit
IsClass peer = Unit
IsClass _ = ⊥

abbrev pub is_customer : PeerType → Bool
is_customer customer = true
is_customer _ = false

-- Routes of customers go to every neighbor, and every route goes to customers.
abbrev pub exports : PeerType → PeerType → Bool
exports from to = is_customer to || is_customer from

-- What an output filter makes of a route: the tags are off, or it is denied.
abbrev pub stripped : Route → Route
stripped s = record s {
  attr = record (s.attr) { comms = comms_remove (comms_remove s.attr.comms comm_prov) comm_peer };
}

pub values-stripped :
    (t : PeerType) (base : List ℕ) (s : Route)
    → IsUntagged base
    → From t base s
    → values (stripped s).attr.comms ≡ base
values-stripped t base s h e =
    (comms_remove_lem (comms_remove s.attr.comms comm_prov) comm_peer).0
    ∙ ap (without comm_peer) (
        (comms_remove_lem s.attr.comms comm_prov).0
        ∙ ap (without comm_prov) e
        ∙ without-append comm_prov base (tag t))
    ∙ without-append comm_peer (without comm_prov base) (without comm_prov (tag t))
    ∙ ap (λ (xs : List ℕ). without comm_peer xs ++ without comm_peer (without comm_prov (tag t)))
        (without_absent comm_prov base h.0)
    ∙ ap (λ (xs : List ℕ). xs ++ without comm_peer (without comm_prov (tag t)))
        (without_absent comm_peer base h.1)
    ∙ gone t
  where
    gone : (u : PeerType) → base ++ without comm_peer (without comm_prov (tag u)) ≡ base
    gone customer = append-nil base
    gone provider = append-nil base
    gone peer = append-nil base
    gone sibling = append-nil base
    gone unknown = append-nil base
