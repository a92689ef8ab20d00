-- ===== src/Examples.antt =====
-- Concrete paths, worlds and calls, with the theorems applied to them.
mod World
mod Paths
mod Calls
mod Directory
mod Fixture
mod Programs
mod Sequences
