-- ===== src/Connections.antt =====
-- The connections of `PluginComm` (src/plugincomm.cpp): `init`, `newTcpConnection`,
-- `newLocalConnection`, `run` and `poll`. What the system calls answer is given by records; a socket
-- is known by its file descriptor.
pub mod Poll
pub mod Opening
pub mod Select
pub mod Traffic
pub mod Removal
pub mod Watching
pub mod Accepted
pub mod Opened
pub mod Failures
