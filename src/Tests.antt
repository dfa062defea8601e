-- ===== src/Tests.antt =====
-- Runs of the development on concrete inputs: for each theorem with hypotheses, one at which they
-- hold.
mod Storage
mod Caching
mod Naming
mod Routes
mod Discovering
mod Upstream
mod Handler
mod Files
mod Setup
mod Clients
mod Resolving
pub mod Data
mod Serving
mod Living
