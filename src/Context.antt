-- ===== src/Context.antt =====
-- context.py: which aliases carry the tenant's session variable, the statements that write it, the
-- context of the active tenant, the admin bypass, and the decorator `tenant_scoped`.
pub mod Aliases
pub mod Session
pub mod Tenant
pub mod Bypass
pub mod Scoped
