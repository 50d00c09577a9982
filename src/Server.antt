-- ===== src/Server.antt =====
-- The components of the kuard server (kuard/pkg) that the client talks to.
pub mod Newest
pub mod KeyGen
pub mod Broker
pub mod Probe
mod Tests
pub mod Maps
pub mod Env
pub mod Memory
pub mod Dns
pub mod App
