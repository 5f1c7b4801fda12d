-- ===== src/Quota.antt =====
-- app/sessions/quota_*.py and quotas.py: rate and byte quotas over three stores.
pub mod Samples
pub mod Limits
pub mod Ledger
pub mod Memory
pub mod Sql
pub mod Redis
pub mod Tenant
