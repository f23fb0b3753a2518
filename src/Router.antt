-- ===== src/Router.antt =====
-- pkg/router/router.go: the node table, the recalculation of the routing policy (`Graph` builds
-- the tables that it reads, `Search` is its loop over the priority queue, `Policy` what it writes)
-- and NextHop. `Float` and `Queue` are the interfaces of what the router uses and does not define.
pub mod Float
pub mod Queue
pub mod Graph
pub mod Search
pub mod Policy
pub mod Nodes
pub mod NextHop
pub mod Delivers
pub mod Samples
mod Tests
