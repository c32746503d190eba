-- ===== src/Main.antt =====
-- agent/main.py: one check cycle of the agent, read -> smooth -> score -> decide -> sign and submit
-- with the nonce retry, and the loop around it. web3 is a parameter; it acts on the world `W`.
pub mod Backend
pub mod Cycle
pub mod Startup
pub mod Emits
pub mod Sends
pub mod Advice
pub mod Guards
pub mod Settles
pub mod Entry
pub mod Tests
unfoldable pub use Backend.*
unfoldable pub use Cycle.*
