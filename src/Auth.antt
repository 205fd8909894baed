-- ===== src/Auth.antt =====
-- openclaw_memory_os/auth.py, a module for each of its parts.
pub mod Limiter
pub mod Recovery
pub mod Totp
pub mod Password
pub mod Login
