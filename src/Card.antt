-- ===== src/Card.antt =====
-- src/card: what the card and its readers exchange below the workflow.
pub mod PasswordId
pub mod AccessRight
pub mod Chat
pub mod Chains
pub mod PaceOutput
pub mod Bluetooth
pub mod SecureMessaging
pub mod Commands
pub mod Connection
