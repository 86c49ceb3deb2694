-- ===== src/Codec.antt =====
-- The encodings of types/src: how accounts, games, players, instructions, values and blocks are
-- written as bytes and read back.
pub mod Reader
pub mod Wire
pub mod Strings
pub mod Games
pub mod Players
pub mod Economy
pub mod Tournaments
pub mod Keys
pub mod Values
pub mod Instructions
pub mod Transactions
pub mod Events
pub mod Outputs
pub mod Blocks
pub mod Limits
