-- ===== src/Pe.antt =====
-- The PE viewer: the globals of ProcessMangerAlpha/GlobalVals.h that its dialogs share, and the
-- monad of their handlers. A handler that meets undefined behaviour (a read outside the file's
-- buffer or through a null pointer, the result of a function that returned none) has no result.
-- `dosHead`, `ntHead` and `fileHead` are set at the start of each function that reads them, so they
-- are local here; `optHead` is read by the address calculator as an earlier function left it.
pub mod Image
pub mod Globals
pub mod Headers
pub mod Address
pub mod FileDialog
pub mod AddressCalc
pub mod Tables
pub mod Directories
pub mod Exports
pub mod Imports
pub mod Relocations
pub mod Resources
