-- ===== src/Global.antt =====
-- src/global: status codes, card return codes and results of the eCard-API.
pub mod Status
pub mod Minor
pub mod Message
pub mod Elements
pub mod Conversion
pub mod Result
pub mod ReturnCode
