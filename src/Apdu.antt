-- ===== src/Apdu.antt =====
-- src/card/base: command and response APDUs, which are byte arrays with their accessors.
pub mod Command
pub mod StatusCode
pub mod Response
