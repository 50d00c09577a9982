-- ===== src/Client.antt =====
-- The single-page client of kuard (kuard/client/src), a module for each component. React applies the
-- updates that a component passes to `setState` in order, each merged into the previous state, and
-- renders the result: an operation of the model is the updated component and the browser calls made.
pub mod Browser
mod Tests
pub mod Router
pub mod Disconnected
pub mod App
pub mod Shell
pub mod Build
pub mod Markdown
pub mod MemQ
pub mod Probe
pub mod KeyGen
pub mod Mem
pub mod Dns
pub mod Env
