-- ===== src/Examples.antt =====
-- Runs of the definitions on concrete inputs, by the parts of the program.
pub mod Wire
pub mod Subscribe
pub mod Groups
pub mod Binlog
pub mod Client
pub mod Sessions
pub mod Start
pub mod Plugins
pub mod Workers
pub mod Delivery
pub mod App
pub mod System
