-- ===== src/Interpose.antt =====
-- rtld_linux.c, the exported functions.
pub mod Plain
pub mod Absolute
pub mod Cwd
pub mod At
pub mod Pair
pub mod WorkingDirectory
pub mod Dispatch
pub mod Callers
pub mod Passes
pub mod Forwarding
pub mod Mode
pub mod Both
pub mod Calls
pub mod Forwards
pub mod Disabled
pub mod Redirect
pub mod Exact
pub mod Steps
pub mod Kinds
pub mod Missing
