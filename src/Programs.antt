-- ===== src/Programs.antt =====
-- cmd/: what the programs make of their environment. The environment, `strconv.Atoi` and
-- `time.ParseDuration` are parameters.
pub mod Router
pub mod TritonAdapter
pub mod LlamaAdapter
mod Tests
