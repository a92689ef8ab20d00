-- ===== src/Path.antt =====
-- rtld_linux.c, the lexical helpers on paths.
pub mod Clean
pub mod Normal
pub mod Prefix
pub mod Join
pub mod Compose
pub mod Translate
pub mod Confined
