-- ===== src/Security.antt =====
-- platform_sdk/security.py
pub mod Opa
pub mod ApiKey
