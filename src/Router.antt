-- ===== src/Router.antt =====
-- internal/router: the backends and the five strategies that choose one for a request.
pub mod Heap
pub mod Names
pub mod Slots
pub mod Decision
pub mod Race
pub mod RoundRobin
pub mod Loads
pub mod LeastPending
pub mod CostAware
pub mod Random
pub mod KvAware
pub mod Serves
pub mod Strategy
mod Tests
