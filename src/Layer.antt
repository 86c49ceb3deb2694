-- ===== src/Layer.antt =====
-- `Layer` of execution/src/layer/mod.rs: the state of one block's execution.
mod Store
mod Monad
mod Nonce
mod Laws
mod Views
pub mod Commit
pub mod Replay
pub mod Frame
pub mod Noncer
unfoldable pub use Store.*
pub use Monad.*
unfoldable pub use Nonce.*
pub use Laws.*
unfoldable pub use Views.*
