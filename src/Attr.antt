-- ===== src/Attr.antt =====
-- BGP path attributes (src/bgp/attr).
pub mod Segment
pub mod Path
pub mod Comm
