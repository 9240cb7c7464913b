-- ===== src/Advertise/Loops.antt =====
-- The AS-Path of an announced route, and the loop detection at the sender (src/bgp/as.c).
use Prim.Native.Nat.{Ordering}
use mathlib.Core.List.{append_assoc, append-nil}
use cbgp.Base.{
  ℕ, zero, suc, ◌+◌, ◌/◌, ◌%◌, ◌≡◌, ◌≢◌, refl, sym, ap, ◌∙◌, subst, Bool, true, false, ◌&&◌, Option,
  none, some, List, [], ◌∷◌, ◌++◌, arith, In, In-append, replicate, ◌==◌, inl, inr, Outcome, ok,
  error, aborted, and_then-ok, ok_injective, if_error-ok, if◌then◌else◌,
}
use cbgp.Attr.Path.{AsPath, segments_of, prepend_loop, path_contains, path_cmp}
use cbgp.Attr.Path.Append.{flat}
use cbgp.Attr.Path.Prepend.{prepend_loop_numbers, path_contains_zero_iff}
use cbgp.Attr.Path.Order.{numbers, path_cmp_total_order}
use cbgp.Attr.Comm.{comm_no_export, comms_add, comms_contains}
use cbgp.Route.{Peer, Route, Ecomm}
use cbgp.Decision.{Router}
use cbgp.Advertise.{
  external, route_to, to_external, prepended, path_prepend, comm_append, values_of, ecomm_step,
  red_action, ecomm_loop, ecomm_process, advertise_to_peer, ecomm_red, ecomm_red_match, rewrite,
  next_hop_for, clear_med, route_ecomm_strip_non_transitive, route_from,
}
use cbgp.Advertise.Stages.{advertise-Announced}
use cbgp.Advertise.Matrix.{route_to-external, announced_external, redistribute-external}

-- The AS numbers of the path of a route.
abbrev pub path_of : Route → List ℕ
path_of r = flat (segments_of r.attr.path_ref)

-- s has the path of r with `asn` behind it, some number of times.
abbrev pub Prolonged : ℕ → Route → Route → Type 0
Prolonged asn r s = (k : ℕ) × (path_of s ≡ path_of r ++ replicate k asn)

same-Prolonged : (asn : ℕ) (r s : Route) → path_of s ≡ path_of r → Prolonged asn r s
same-Prolonged asn r s e = (0, e ∙ sym (append-nil (path_of r)))

pub replicate_add : (m n a : ℕ) → replicate m a ++ replicate n a ≡ replicate (m + n) a
replicate_add zero n a = ap (λ k. replicate k a) (omega arith)
replicate_add (suc m) n a = ap (◌∷◌ a) (replicate_add m n a) ∙ ap (λ k. replicate k a) (more m)
  where
    more : (i : ℕ) → suc (i + n) ≡ suc i + n
    more i = omega arith

Prolonged-trans :
    (asn : ℕ) (r s t : Route) → Prolonged asn r s → Prolonged asn s t → Prolonged asn r t
Prolonged-trans asn r s t (k, e) (l, f) = (
  k + l,
  f
      ∙ ap (λ xs. xs ++ replicate l asn) e
      ∙ append_assoc (path_of r) (replicate k asn) (replicate l asn)
      ∙ ap (λ xs. path_of r ++ xs) (replicate_add k l asn),
)

pub In-replicate : (a b k : ℕ) → In a (replicate k b) → a ≡ b
In-replicate a b zero i = absurd i
In-replicate a b (suc k) (inl e) = e
In-replicate a b (suc k) (inr i) = In-replicate a b k i

flat_numbers : (p q : AsPath) → numbers p ≡ numbers q → flat p ≡ flat q
flat_numbers [] [] e = refl
flat_numbers [] (t ∷ q) e = absurd (cc)
flat_numbers (s ∷ p) [] e = absurd (cc)
flat_numbers (s ∷ p) (t ∷ q) e =
    let a : s.asns ≡ t.asns = cc (e) in
    let b : numbers p ≡ numbers q = cc (e) in
    ap (λ xs. xs ++ flat p) a ∙ ap (λ xs. t.asns ++ xs) (flat_numbers p q b)

-- The repository gives back a path that path_cmp takes for the same.
abbrev pub Interns : (AsPath → AsPath) → Type 0
Interns intern = (p : AsPath) → path_cmp false (some (intern p)) (some p) ≡ Ordering.eq

-- A policy that leaves the AS-Path alone.
abbrev pub KeepsPath : (Route → Option (Option Route)) → Type 0
KeepsPath policy = (r s : Route) → policy r ≡ some (some s) → s.attr.path_ref ≡ r.attr.path_ref

module _ (intern : AsPath → AsPath) (interns : Interns intern) where
  path_prepend-Prolonged :
      (r s : Route) (asn amount : ℕ) → path_prepend intern r asn amount ≡ ok s → Prolonged asn r s
  unfolding path_prepend
  path_prepend-Prolonged r s asn amount e =
      go (prepend_loop amount (segments_of r.attr.path_ref) asn) refl e
    where
      go :
          (o : Outcome AsPath)
          → prepend_loop amount (segments_of r.attr.path_ref) asn ≡ o
          → prepended intern r o ≡ ok s
          → Prolonged asn r s
      go (ok p) q e = (
        amount,
        ap path_of (sym (ok_injective _ s e))
            ∙ flat_numbers (intern p) p ((path_cmp_total_order (intern p) p p).0.0 (interns p))
            ∙ prepend_loop_numbers amount (segments_of r.attr.path_ref) asn p q,
      )
      go error q e = same-Prolonged asn r s (ap path_of (sym (ok_injective _ s e)))
      go aborted q e = absurd (cc)

  comm_append-Prolonged :
      (r s : Route) (asn comm : ℕ) → comm_append r comm ≡ ok s → Prolonged asn r s
  comm_append-Prolonged r s asn comm e = go (comms_add (values_of r.attr.comms) comm) e
    where
      go :
          (o : Option (List ℕ))
          → (elim o [
            | none ↦ aborted
            | some c ↦ ok (record r { attr = record (r.attr) { comms = some c } })
          ])
            ≡ ok s
          → Prolonged asn r s
      go none e = absurd (cc)
      go (some c) e = same-Prolonged asn r s (ap path_of (sym (ok_injective _ s e)))

  red_action-Prolonged :
      (action amount : ℕ) (router : Router) (r s : Route)
      → red_action intern action amount router r ≡ ok s
      → Prolonged router.asn r s
  red_action-Prolonged zero amount router r s e = path_prepend-Prolonged r s router.asn amount e
  red_action-Prolonged (suc zero) amount router r s e =
      comm_append-Prolonged r s router.asn comm_no_export e
  red_action-Prolonged (suc (suc zero)) amount router r s e = absurd (cc)
  red_action-Prolonged (suc (suc (suc n))) amount router r s e = absurd (cc)

  ecomm_step-Prolonged :
      (router : Router) (peer : Peer) (c : Ecomm) (r s : Route)
      → ecomm_step intern router peer c r ≡ ok s
      → Prolonged router.asn r s
  ecomm_step-Prolonged router peer c r s e =
      go ((c.type_high == ecomm_red) && ecomm_red_match c peer) e
    where
      go :
          (t : Bool)
          → (if t then red_action intern ((c.type_low / 8) % 8) (c.type_low % 8) router r else ok r)
            ≡ ok s
          → Prolonged router.asn r s
      go true e = red_action-Prolonged ((c.type_low / 8) % 8) (c.type_low % 8) router r s e
      go false e = same-Prolonged router.asn r s (ap path_of (sym (ok_injective r s e)))

  ecomm_loop-Prolonged :
      (router : Router) (peer : Peer) (cs : List Ecomm) (r s : Route)
      → ecomm_loop intern router peer cs r ≡ ok s
      → Prolonged router.asn r s
  unfolding ecomm_loop
  ecomm_loop-Prolonged router peer [] r s e =
      same-Prolonged router.asn r s (ap path_of (sym (ok_injective r s e)))
  ecomm_loop-Prolonged router peer (c ∷ cs) r s e =
      let (t, a, b) = and_then-ok (ecomm_step intern router peer c r) _ s e in
      Prolonged-trans router.asn r t s (ecomm_step-Prolonged router peer c r t a)
        (ecomm_loop-Prolonged router peer cs t s b)

  ecomm_process-Prolonged :
      (router : Router) (peer : Peer) (r s : Route)
      → ecomm_process intern router peer r ≡ ok s
      → Prolonged router.asn r s
  unfolding ecomm_process
  ecomm_process-Prolonged router peer r s e = go r.attr.ecomms e
    where
      go :
          (o : Option (List Ecomm))
          → (elim o [ none ↦ ok r | some cs ↦ ecomm_loop intern router peer cs r ]) ≡ ok s
          → Prolonged router.asn r s
      go none e = same-Prolonged router.asn r s (ap path_of (sym (ok_injective r s e)))
      go (some cs) e = ecomm_loop-Prolonged router peer cs r s e

  to_external-Prolonged :
      (asn : ℕ) (dst : Peer) (r s : Route) → to_external dst r ≡ ok s → Prolonged asn r s
  unfolding to_external
  to_external-Prolonged asn dst r s e =
      let (a, b) = if_error-ok (comms_contains r.attr.comms comm_no_export) _ s e in
      go (path_contains r.attr.path_ref dst.asn == 0) b
    where
      go :
          (t : Bool)
          → (if t
              then ok
                  (record r { attr = record (r.attr) { originator = none; cluster_list = none } })
              else error)
            ≡ ok s
          → Prolonged asn r s
      go true e = same-Prolonged asn r s (ap path_of (sym (ok_injective _ s e)))
      go false e = absurd (cc)

  announced-Prolonged :
      (policy : Route → Option (Option Route)) (router : Router) (dst : Peer) (r out : Route)
      → KeepsPath policy
      → router.asn ≢ dst.asn
      → advertise_to_peer intern policy router dst r ≡ ok out
      → Prolonged router.asn r out
  unfolding rewrite
  announced-Prolonged policy router dst r out keeps h e =
      let a = advertise-Announced intern policy router dst r out e in
      let b : to_external dst r ≡ ok a.r1 =
        sym (redistribute-external router dst r h) ∙ a.redistributed in
      let c : path_prepend intern (next_hop_for router dst a.r3) router.asn 1 ≡ ok out =
        subst (λ l. rewrite intern (route_from router r.peer) l router dst a.r3 ≡ ok out)
          (route_to-external router dst h) a.rewritten in
      Prolonged-trans router.asn r a.r1 out (to_external-Prolonged router.asn dst r a.r1 b) (
        Prolonged-trans router.asn a.r1 a.r2 out
          (ecomm_process-Prolonged router dst a.r1 a.r2 a.processed)
          (Prolonged-trans router.asn a.r2 a.r3 out
            (same-Prolonged router.asn a.r2 a.r3 (kept a.r2 a.r3 a.accepted))
            (path_prepend-Prolonged (next_hop_for router dst a.r3) out router.asn 1 c)))
    where
      kept :
          (s t : Route)
          → policy (clear_med (route_to router dst) (route_ecomm_strip_non_transitive s))
            ≡ some (some t)
          → path_of t ≡ path_of s
      kept s t p =
          ap (λ o. flat (segments_of o))
            (keeps (clear_med external (route_ecomm_strip_non_transitive s)) t (
              subst (λ l. policy (clear_med l (route_ecomm_strip_non_transitive s)) ≡ some (some t))
                (route_to-external router dst h) p))

  -- Where the output filter leaves AS-Paths alone, a route announced to an eBGP peer has the AS-Path
  -- it came with and behind it only the AS number of the router, some number of times; the AS number
  -- of the peer is not in it.
  pub announced_path :
      (policy : Route → Option (Option Route)) (router : Router) (dst : Peer) (r out : Route)
      → KeepsPath policy
      → router.asn ≢ dst.asn
      → advertise_to_peer intern policy router dst r ≡ ok out
      → ((k : ℕ) × (path_of out ≡ path_of r ++ replicate k router.asn))
        × (path_contains out.attr.path_ref dst.asn ≡ 0)
  announced_path policy router dst r out keeps h e =
      let (k, p) = announced-Prolonged policy router dst r out keeps h e in
      let (_, _, _, no_loop) = announced_external intern policy router dst r out h e in
      (
        (k, p),
        (path_contains_zero_iff out.attr.path_ref dst.asn).1 (λ i.
            elim (In-append dst.asn (path_of r) (replicate k router.asn) (subst (In dst.asn) p i)) [
              | inl j ↦ (path_contains_zero_iff r.attr.path_ref dst.asn).0 no_loop j
              | inr j ↦ h (sym (In-replicate dst.asn router.asn k j))
            ]),
      )
