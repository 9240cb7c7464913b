-- ===== src/Speaker/Sequence.antt =====
-- The sequence numbers of messages between two routers: _bgp_peer_send and _bgp_peer_seqnum_check of
-- src/bgp/peer.c.
use cbgp.Base.{true, false, Option, none, some, List, [], ◌∷◌, ◌++◌, take}
use cbgp.Speaker.{Content, Message, Session, Env, peer_send}
use cbgp.Speaker.Handle.{seqnum_check, counted}

-- A sequence of messages sent on a session, the first one first.
abbrev pub transmit : Env → List Content → Session → List Message
transmit env [] s = []
transmit env (c ∷ cs) s = take 1 (peer_send env c s).sent ++ transmit env cs (peer_send env c s)

-- A sequence of messages that arrives: each is checked and counted.
abbrev pub deliver : List Message → Session → Option Session
deliver [] t = some t
deliver (m ∷ ms) t = elim (seqnum_check t m) [ true ↦ deliver ms (counted t) | false ↦ none ]
