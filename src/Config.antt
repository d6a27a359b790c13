-- ===== src/Config.antt =====
-- The configuration that requests are served by (src/config).
pub mod Domains
pub mod Organizations
pub mod Reading
pub mod Yaml
pub mod Loading
pub mod Environment
pub mod Manager
pub mod Json
pub mod Sections
pub mod Labels
pub mod Resources
