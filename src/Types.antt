-- ===== src/Types.antt =====
-- The data that the chain stores and exchanges (types/src/casino/*.rs and types/src/execution.rs).
-- A public key is its 32 bytes read as a number, since the code only compares keys. A `String` is
-- the list of its bytes.
mod Constants
mod Game
mod Players
mod Economy
mod Tournaments
mod Events
mod Store
pub use Constants.*
pub use Game.*
pub use Players.*
pub use Economy.*
pub use Tournaments.*
pub use Events.*
pub use Store.*
