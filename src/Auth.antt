-- ===== src/Auth.antt =====
-- The acting identity, its permissions and its tokens (src/auth.rs, src/auth/session.rs).
pub mod Identity
pub mod Token
