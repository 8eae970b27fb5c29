-- ===== src/Tests.antt =====
-- Runs on concrete inputs, and the theorems applied to them. `Sample` is a small PE file.
pub mod Sample
pub mod Addresses
pub mod Tables
pub mod Exports
pub mod Scans
pub mod System
pub mod Protocol
pub mod Session
pub mod Uploads
pub mod Resources
pub mod Serving
pub mod Endings
pub mod Threads
pub mod Closing
pub mod Windows
