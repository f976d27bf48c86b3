-- ===== src/Auth.antt =====
-- src/app/auth: tokens, the service, the routes with their transactions, and what they keep.
pub mod Tokens
pub mod Tables
pub mod Service
pub mod Routes
pub mod Sessions
pub mod Keeping
pub mod History
pub mod Laws
pub mod Access
pub mod Login
