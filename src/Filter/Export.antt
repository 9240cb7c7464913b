-- ===== src/Filter/Export.antt =====
-- Route filters as the output policy of a peer (src/bgp/as.c, src/bgp/filter/filter.c).
use cbgp.Base.{ℕ, ◌≡◌, ◌≢◌, Bool, Option, some, ◌++◌, replicate, ok}
use cbgp.Attr.Path.{AsPath, path_contains}
use cbgp.Route.{Peer, Route}
use cbgp.Decision.{Router}
use cbgp.Advertise.{advertise_to_peer}
use cbgp.Advertise.Loops.{Interns, path_of, announced_path}
use cbgp.Filter.{Rules, filter_apply}
use cbgp.Filter.Quiet.{QuietRules, filter_apply-path}

-- Where no action of the output filter, of the filters that it jumps to or calls included, removes
-- private AS numbers, prepends or inserts, a route announced to an eBGP peer has the AS-Path it came
-- with and behind it only the AS number of the router, some number of times; the AS number of the
-- peer is not in it.
pub filtered_announced_path :
    (intern : AsPath → AsPath) (path_match : ℕ → Option AsPath → Option Bool)
    (has_address : ℕ → Bool) (router : Router) (rules : Rules) (dst : Peer) (r out : Route)
    → Interns intern
    → QuietRules rules
    → router.asn ≢ dst.asn
    → advertise_to_peer intern
        (filter_apply intern path_match has_address router (some rules))
        router
        dst
        r
      ≡ ok out
    → ((k : ℕ) × (path_of out ≡ path_of r ++ replicate k router.asn))
      × (path_contains out.attr.path_ref dst.asn ≡ 0)
filtered_announced_path intern path_match has_address router rules dst r out interns quiet h e =
    announced_path intern interns (filter_apply intern path_match has_address router (some rules))
      router dst r out
      (λ s t p. filter_apply-path intern path_match has_address router rules s t quiet p) h e
