-- ===== src/Config.antt =====
-- platform_sdk/config/loader.py: YAML files, merged, with variables substituted, and validated.
pub mod Merge
pub mod Models
pub mod Text
pub mod Load
