-- ===== src/Sshx.antt =====
-- internal/sshx: the SSH transport. The output buffer and its pattern search, the classification of
-- connection errors, and the pool of bastion connections.
pub mod Buffer
pub mod Exec
pub mod Bastion
pub mod HostKeys
pub mod Classify
