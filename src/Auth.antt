-- ===== src/Auth.antt =====
-- internal/auth: the login rate limiter and the session store.
pub mod Clock
pub mod Limiter
pub mod Sessions
pub mod Requests
