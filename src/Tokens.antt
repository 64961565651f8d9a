-- ===== src/Tokens.antt =====
-- API tokens (api/app/services/token_service.py), with their table.
pub mod Table
pub mod Service
pub mod Verified
pub mod Kept
pub mod Purged
pub mod Fields
pub mod Requested
