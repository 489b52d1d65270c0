-- ===== src/Remote.antt =====
-- src/remote_device: a card reader that is used over the network.
pub mod Json
pub mod Messages
pub mod Dispatcher
pub mod Server
pub mod PinChange
pub mod DeviceList
