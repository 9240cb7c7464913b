-- ===== src/Examples/Compare.antt =====
-- The attributes of a route against a copy of them.
use cbgp.Base.{◌≡◌, refl, true, false, some}
use cbgp.Attr.Path.{path_equals}
use cbgp.Route.{Attributes, origin_code}
use cbgp.Route.Compare.{attr_cmp, attr_cmp_sound, both_null}
use cbgp.Examples.Routes.{route_a}

abbrev a : Attributes
a = route_a.attr

cmp_runs : attr_cmp false true a a ≡ some true
unfolding attr_cmp
cmp_runs = refl

attr_cmp_sound_example :
    (a.next_hop ≡ a.next_hop)
    × (a.local_pref ≡ a.local_pref)
    × (path_equals (both_null a.path_ref a.path_ref) a.path_ref a.path_ref ≡ some true)
    × (origin_code a.origin ≡ origin_code a.origin)
    × (a.med ≡ a.med)
    × (a.comms ≡ a.comms)
    × (a.originator ≡ a.originator)
    × (a.cluster_list ≡ a.cluster_list)
attr_cmp_sound_example = attr_cmp_sound true a a cmp_runs
