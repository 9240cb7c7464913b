-- ===== src/Examples.antt =====
-- Concrete runs: the theorems at inputs that meet their hypotheses.
mod Paths
mod Routes
mod Adverts
mod Comms
mod Prefixes
mod Compare
mod Filters
mod Predicates
mod Topologies
mod Speakers
mod Schedulers
