-- ===== src/Credentials.antt =====
-- internal/credentials: the redactor, and the secrets that a credential resolves to.
pub mod Redactor
pub mod Resolve
