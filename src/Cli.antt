-- ===== src/Cli.antt =====
-- internal/cli: what `rco run` and `rco validate` decide before a host is contacted.
pub mod Run
