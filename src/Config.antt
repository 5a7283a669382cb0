-- ===== src/Config.antt =====
-- packages/config/src: the templates of the configuration file.
pub mod Scan
pub mod Interpolation
pub mod Templates
pub mod Validated
pub mod Escaping
