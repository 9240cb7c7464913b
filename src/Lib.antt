-- ===== src/Lib.antt =====
-- C-BGP, an efficient BGP routing solver: the BGP side of the program.
--
-- A router (src/bgp/as.c) keeps the routes learned from its peers. For a prefix it collects the
-- eligible routes and runs the decision process on them: a table of rules (src/bgp/dp_rules.c),
-- each of which removes routes from a shared array, until at most one is left. The rules read
-- attributes of the routes (src/bgp/route.c, src/bgp/attr.c), above all the AS-Path
-- (src/bgp/attr/path.c), an array of segments (src/bgp/attr/path_segment.c). Before a route is
-- advertised (src/bgp/as.c) it passes the redistribution matrix, the redistribution communities and
-- the output filter of the peer; then the AS number of the router is appended to its path, which is
-- written with the origin first, so that `prepend` appends.
--
-- The best route goes to the Loc-RIB, its next-hop to the routing table of the node, and what may be
-- advertised of it to the Adj-RIB-Outs and, in messages, to the peers. Messages come in through the
-- sessions (src/bgp/peer.c), a state machine per peer; an update passes the input filter
-- (src/bgp/filter/filter.c) into the Adj-RIB-In, and the decision process is run again. All of this
-- happens in events of a scheduler (src/sim/static_scheduler.c), one at a time. Filters hold predicates,
-- which a state machine reads from text (src/bgp/filter/predicate_parser.c). A topology of domains with
-- business relationships (src/bgp/aslevel) sets up a network of routers with filters for them.
--
-- Files and code:
--   Base            lists, options, results, Booleans; Base/Int: the C type int
--   Net/Prefix      src/net/prefix.c: prefixes; Net/Prefix/Laws: prefixes as sets of addresses
--   Attr/Segment    src/bgp/attr/path_segment.c; its child modules hold the proofs
--   Attr/Path       src/bgp/attr/path.c, and the loop of bgp_attr_path_prepend in src/bgp/attr.c;
--                   child modules by topic: Length, Append, Prepend, Private, Order, Position, Hash
--   Attr/Comm       src/bgp/attr/comm.c: communities; Attr/Comm/Laws: what they do to the values
--   Route           src/bgp/route.c and src/bgp/types.h: routes, attributes, peers, flags;
--                   Route/Compare: bgp_attr_cmp, route_equals and src/bgp/route_reflector.c
--   Decision        src/bgp/dp_rules.c, and _bgp_router_decision_process_run of src/bgp/as.c
--   Decision/Select, Lowest   the selection of minima that the rules share
--   Decision/Med    the deterministic MED rule; Decision/Rules: the other rules, one by one
--   Decision/Keys, Choice, Table, Run   the rules as choices of minima, and the whole process
--   Advertise       _bgp_router_advertise_to_peer and bgp_router_ecomm_process of src/bgp/as.c,
--                   with the attribute updates of src/bgp/route.c, src/bgp/attr.c and
--                   src/bgp/attr/ecomm.c that they make; Stages: the stages a route passes; Matrix:
--                   the redistribution matrix; Loops: the AS-Path; Scope: the communities; Export:
--                   what an eBGP peer gets
--   Filter          src/bgp/filter/filter.c; Matchers: compound predicates; Chains: jumps and
--                   calls; Quiet: what actions leave alone; Export: a filter as the output policy of a peer
--   Filter/Predicate   src/bgp/filter/predicate_parser.c; Blocks: the operations on its stack; Syntax: a
--                   grammar of predicates; Steps, RoundTrip: what it reads; Meaning: what that
--                   matches; Consumed, StackRounds, Rounds: when its loops end
--   Speaker         a router with its sessions at one prefix: the data of src/bgp/types.h
--   Speaker/Process      bgp_router_decision_process and the dissemination in src/bgp/as.c, and
--                        src/bgp/dp_rt.c
--   Speaker/Fsm, Handle  the sessions and the messages they receive, src/bgp/peer.c; start and stop
--   Speaker/Networks, Config, Scan      local networks, peers, and the scan of the RIBs, src/bgp/as.c
--   Speaker/Routing, Peers, Selection   the decision process, the Loc-RIB and the routing table
--   Speaker/Every, Lasting, Told, Silent  what operations do to every session, and what peers know
--   Speaker/Steady, Shutdown, Learnt, Received, Configured, Reach
--                                     sessions in all states that a router reaches
--   Speaker/Sequence, Stale             sequence numbers; local networks over learned routes
--   Scheduler       src/sim/static_scheduler.c; Order: the order of events; Limits: the end of a run
--   AsLevel         src/bgp/aslevel/as-level.c and src/bgp/aslevel/filter.c; Arrays: its sorted arrays;
--                   Policies, Tags, OneLink, ValleyFree: the filters; Consistent: the consistency
--                   test; BackLinks, Removal: one domain; Groups, Identified, Kept: a group of
--                   domains; Connected: the test on connectedness and, below it, when it ends and
--                   what it answers
--   Examples        concrete prefixes, paths, routes and communities, to which the theorems apply
--
-- Functions keep their names. An array of libgds (ptr_array_t) is a list, as are the AS numbers of
-- a segment, whose uint8 length is the length of the list. A null pointer is `none`, and so is a
-- run that aborts, fails an assertion or reads through a null pointer; the places where a function
-- may also return -1 have the type Outcome (ok, error, aborted). Functions that test pointers for
-- equality take the outcome of that test as an argument `alias`. Comparison results -1, 0 and 1 are
-- lt, eq and gt. Arithmetic that may wrap has its modulus written out.
--
-- Loops are recursions on the list that is traversed. The loops that shrink or index an array run
-- on fuel: the length of the segment for the removal of private AS numbers and for path_at, the
-- number of routes for the deterministic MED rule; the theorems show that they end within it. A run
-- of the scheduler has as fuel the number of events it may process, and needs no more than its limit.
-- The parser of predicates has a turn for each character of the text, and one for its end; the
-- operations on its stack have a turn for each item, and one more. Both loops leave within these turns
-- on every text, which is shown without fuel (Rounds, StackRounds).
-- The search of a topology has a round for each link and one for each domain, and one more.
--
-- The RIBs and the routing table are tries of libgds, keyed by prefixes; the operations of a router on
-- different prefixes meet only in the routing table. Speaker takes them at one prefix, where each
-- holds at most one route; a session then sends and receives only what is about that prefix. What a
-- session sends is kept as a list. An object that is shared by reference, such as the route in an
-- Adj-RIB-In among the candidates, is written back where the code changes it through a reference.
--
-- Parameters: the IGP cost of a next-hop (rt_find_best and the routing table) is a field of the
-- router. The flag DP_IGP of a route that a rule discards is not kept, since nothing that runs reads
-- it. An advertisement has two parameters: the output filter of the peer, a function that may abort,
-- refuse a route or accept it changed (Filter/Export and Speaker put filter_apply in its place), and
-- `intern`, the search in the global repository of AS-Paths, a hash set of libgds whose elements are
-- compared by path_cmp; what theorems need of either is a hypothesis. Filters have as parameters the
-- table of regular expressions and their matching (libpcre) and the addresses of the node. The
-- record Env of Speaker gathers these, ecomms_equal, and the answers of the network: whether an
-- address has a route, is reached by a ping, and what the sending of a message to it returns. The
-- callbacks of events are a parameter of the scheduler. The parser of predicates has that of atoms, the
-- command parser of libgds with the commands of src/bgp/filter/registry.c, as a parameter, and the
-- capacity of a stack of libgds.
--
-- Not modelled: the command line, the Java binding, printing and parsing (but for predicates), the
-- network layer (but for prefixes) and the IGP, the loading of RIBs, the dynamic scheduler, the editing
-- of filters, the cycle test, the files and the installation of AS-level topologies, and the
-- experimental build options (__EXPERIMENTAL__, __BGP_PATH_TYPE_TREE__, BGP_QOS).
pub mod Base
pub mod Net
pub mod Attr
pub mod Route
pub mod Decision
pub mod Advertise
pub mod Filter
pub mod Speaker
pub mod Scheduler
pub mod AsLevel
mod Examples
