-- ===== src/Card/Chains.antt =====
-- src/card/base/asn1: chains of card verifiable certificates.
pub mod Builder
pub mod Building
pub mod Extension
pub mod Built
pub mod Cvc
pub mod Choice
pub mod Chosen
