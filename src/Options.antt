-- ===== src/Options.antt =====
-- src/option.c: the options of servers, user mappings and tables, and the settings strings.
pub mod Scan
pub mod Parse
pub mod Guc
pub mod Table
pub mod Validate
pub mod Extract
