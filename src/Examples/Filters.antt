-- ===== src/Examples/Filters.antt =====
-- Filters of a router of AS 1 on a route of AS 2.
use cbgp.Base.{ℕ, ◌≡◌, refl, true, false, Bool, Option, none, some, ◌++◌, arith, replicate, ok}
use cbgp.Attr.Path.{AsPath, path_contains}
use cbgp.Attr.Comm.{comms_contains}
use cbgp.Route.{Route}
use cbgp.Advertise.{advertise_to_peer}
use cbgp.Advertise.Loops.{path_of}
use cbgp.Advertise.Export.{exported}
use cbgp.Filter.{
  Matcher, match_nexthop_is, match_comm_contains, Rules, no_rules, rule, done, act, jump, call,
  accept, deny, pref_set, metric_set, accepted, filter_apply, rules_apply, actions_apply,
  action_step, matcher_apply,
}
use cbgp.Filter.Chains.{then_rules, call_inline}
use cbgp.Filter.Quiet.{QuietActions, QuietRules}
use cbgp.Filter.Export.{filtered_announced_path}
use cbgp.Examples.Routes.{router, route_a}
use cbgp.Examples.Adverts.{same, same-Interns, other, longer}

abbrev pub any_path : ℕ → Option AsPath → Option Bool
any_path i p = some true

abbrev pub no_address : ℕ → Bool
no_address a = false

abbrev near : Matcher
near = match_nexthop_is 4

abbrev tagged : Matcher
tagged = match_comm_contains 7

abbrev shared : Rules
shared = rule (some tagged) (act deny done) (rule none (act (metric_set 5) done) no_rules)

abbrev tail : Rules
tail = rule none (act (pref_set 50) (act accept done)) no_rules

call_inline_example :
    (rules_apply same any_path no_address router accepted
        (rule none (call shared done) tail)
        route_a
      ≡ rules_apply same any_path no_address router accepted (then_rules shared tail) route_a)
    × (rules_apply same any_path no_address router accepted
          (rule none (jump shared done) tail)
          route_a
        ≡ rules_apply same any_path no_address router accepted shared route_a)
call_inline_example = call_inline same any_path no_address router accepted shared tail route_a

abbrev outcome : Route
outcome =
    let r = exported router other route_a longer in
    record r { attr = record (r.attr) { local_pref = 50; med = 5 } }

filtered_runs :
    advertise_to_peer same
      (filter_apply same any_path no_address router (some (rule none (call shared done) tail)))
      router
      other
      route_a
    ≡ ok outcome
unfolding advertise_to_peer comms_contains path_contains filter_apply rules_apply actions_apply
    action_step matcher_apply
filtered_runs = refl

quiet : QuietRules (rule none (call shared done) tail)
unfolding QuietRules QuietActions
quiet = omega arith

filtered_announced_path_example :
    ((k : ℕ) × (path_of outcome ≡ path_of route_a ++ replicate k 1))
    × (path_contains (some longer) 3 ≡ 0)
filtered_announced_path_example =
    filtered_announced_path same any_path no_address router (rule none (call shared done) tail)
      other route_a outcome same-Interns quiet (omega arith) filtered_runs
