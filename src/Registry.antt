-- ===== src/Registry.antt =====
-- The dialogs that show keys of the registry: the programs that start with the system, and those
-- that can be removed.
pub mod StartUp
pub mod Uninstall
