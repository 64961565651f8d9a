-- ===== src/Access.antt =====
-- Who is calling and what they may do (api/app/services/auth_service.py, api/app/utils/auth.py).
pub mod User
pub mod Rules
pub mod Refused
pub mod Proxied
