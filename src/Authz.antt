-- ===== src/Authz.antt =====
-- src/application/authz.py: who is calling, and what the caller may do. One child for each section of
-- the file.
pub mod Identity
pub mod Keys
pub mod Token
pub mod Request
pub mod Glob
pub mod Rbac
pub mod Acl
pub mod Abac
pub mod Check
pub mod Sample
mod Examples
