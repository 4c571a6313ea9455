-- ===== src/Cli.antt =====
-- Package `cli`: the command line of Route Fork.
pub mod Output
pub mod Flags
pub mod Config
pub mod Flat
