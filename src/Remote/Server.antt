-- ===== src/Remote/Server.antt =====
-- src/remote_device/ServerMessageHandler.cpp: the side of a remote connection that has the reader. The
-- readers, the setting of the PIN pad mode and the order of the texts (`QString::operator<`) are what the
-- other parts of the program tell at the time of a call; the identifiers that `QUuid` makes and the
-- hexadecimal digits are arguments.
pub mod Connections
pub mod Handlers
pub mod Completions
pub mod Lookup
pub mod Removal
pub mod Answers
pub mod Held
