-- ===== src/Tests.antt =====
-- The theorems at concrete inputs.
mod Codes
mod Cards
mod AuthFlow
mod Paces
mod Messages
mod Certificates
mod RemoteReader
mod Connections
mod DeviceLists
