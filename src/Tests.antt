-- ===== src/Tests.antt =====
-- Tests of the definitions, and the theorems at concrete inputs.
pub mod Site
pub mod Keys
pub mod Dashboard
pub mod Server
pub mod Documents
pub mod Buttons
pub mod Auth
pub mod Json
pub mod Screens
pub mod Clerk
pub mod KeyStore
