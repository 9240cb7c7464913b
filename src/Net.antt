-- ===== src/Net.antt =====
-- The network layer, as far as BGP routes need it (src/net).
pub mod Prefix
