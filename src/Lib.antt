-- ===== src/Lib.antt =====
-- The casino chain, in Rust: the execution layer (execution/src/layer, execution/src/state.rs,
-- execution/src/state_transition.rs and execution/src/casino) over the types of types/src, and the
-- node's mempool and proposals (node/src/application). Clients' transactions wait in the mempool; a
-- proposal takes those whose nonces are next; the layer takes a block's transactions: it checks and
-- increments the nonce of the account, and hands the instruction to a handler, which reads and
-- writes the state through an overlay of pending writes and reports events. After the block the
-- events are committed to their database, and the overlay to the state. What is stored and sent is
-- encoded as bytes.
--
-- The parts, and the files that model them:
--
--   * Base: the shared names; tests on numbers, lists, signed integers and machine words. A `u64`
--     operation that saturates is `sat_add`, `sat_mul`; one that does not panics out of range, since
--     Cargo.toml turns overflow checks on in the release profile.
--   * Types: types/src/casino/*.rs and the keys, values, instructions and events of
--     types/src/execution.rs. A public key is a number. The text of an error event is left out.
--   * Layer: `Layer` of execution/src/layer/mod.rs (Layer.Store), with `get`, `insert`, `delete`,
--     `commit`; `State` and `Memory` of execution/src/state.rs; the handlers' state passing with early
--     returns and panics (Layer.Monad); `prepare` (Layer.Nonce); what the handlers find at each key
--     (Layer.Views). Layer.Commit and Layer.Replay hold the theorems.
--   * Staking: execution/src/layer/handlers/staking.rs.
--   * Liquidity: execution/src/layer/handlers/liquidity.rs, as Liquidity.Vaults and Liquidity.Pool, with
--     the quotes in Liquidity.Pool.Quote, and `Layer::integer_sqrt` in Liquidity.Sqrt.
--   * Leaderboard: types/src/casino/leaderboard.rs, and the players of types/src/casino/tournament.rs.
--     The binary search of the standard library is written out in Leaderboard.Search.
--   * Casino: execution/src/layer/handlers/casino.rs. Casino.Players has the registration, the faucet
--     and the toggles; Casino.Start `handle_casino_start_game`; Casino.Move `handle_casino_game_move`;
--     Casino.Settle the ends of a game that the two share; Casino.Funds the purses, the profit of the
--     house and the boards; Casino.Aura the aura meter; Casino.Progressive the jackpots;
--     Casino.Tournaments joining and starting a tournament; Casino.Ending its end; Casino.Multipliers the
--     multiplied payouts; Casino.Rng the generator `GameRng` of
--     execution/src/casino/mod.rs.
--   * Games: Hi-Lo, execution/src/casino/hilo.rs (Games.HiLo), with its blob in Games.HiLo.State, its
--     odds in Games.HiLo.Odds and its moves in Games.HiLo.Moves; Casino War,
--     execution/src/casino/casino_war.rs (Games.CasinoWar), with its draws in Games.CasinoWar.Play.
--     The two are not tied to a `Host` here.
--   * Mempool: node/src/application/mempool.rs. Its maps are association lists (Base.Assoc), the
--     nonces of an account an ascending one (Mempool.Nonces); a digest is a number, by a hash that is
--     a parameter. Mempool.Invariant has the invariant, Mempool.Turns one turn of the loop of `next`.
--   * Codec: the encodings of types/src/casino/*.rs and types/src/execution.rs: `write_x`, `read_x` and
--     `x_size` are the `Write`, `Read` and `EncodeSize` of a type, on lists of bytes (Codec.Reader).
--     The formats of numbers, keys, options and vectors belong to the codec library: they are a
--     parameter (`Wire`), with what the library documents as hypotheses (`IsWire`). Codec.Events
--     has the event with the text of its error, Codec.Blocks the blocks and their digests.
--   * Chain: `Layer::apply` and `Layer::execute` of execution/src/layer/mod.rs, and
--     execution/src/state_transition.rs (Chain.Transition) over two databases that are parameters
--     (Chain.Databases, with the `State` of `Adb` of execution/src/state.rs, which logs an error of
--     a read or a write and goes on). The digests of keys are of any type. Chain.Writes is about the
--     writes that land, Chain.Transition.Lost about those that do not, and Chain.Replay about nonces.
--     The modules called Frame say what the handlers leave alone.
--   * Proposal: the choice of a block's transactions in node/src/application/actor.rs, with `Noncer`
--     of execution/src/state.rs (Layer.Noncer). Proposal.Ancestors ties it to the execution of the
--     blocks before it.
--
-- The games are behind the trait `CasinoGame`: the handlers are given a `Host` (Casino.Interface), with
-- any games, any SHA-256 and any multipliers of the super mode, and the theorems hold for all of
-- them, or for those that a theorem's hypotheses describe. The prize of a tournament is split in
-- floating point: the split is a parameter (`Split`).
--
-- Fuel: Newton's iteration has as many rounds as its first value, which falls in each round; the
-- binary search has as many as its list is long, and halves the rest in each. The loops of the
-- rejection sampling have no bound of their own: their fuel is a parameter, and it is enough when a
-- number below the limit comes within it. The loop of the mempool's `next` takes a key off the queue
-- in each turn, and that of a proposal a transaction out of the mempool: the lengths are enough.
-- All else is by structural recursion.
--
-- Not modelled: the games but Hi-Lo and Casino War, and the generators of the super mode's
-- multipliers; the encodings of `Status` and of `Finalized`, which is that of `Notarized`;
-- signatures; the tasks and messages of the node's actors, the client, the simulator and the
-- website, which are input and output or apart from the execution of blocks.
pub mod Base
pub mod Types
pub mod Layer
pub mod Staking
pub mod Liquidity
pub mod Leaderboard
pub mod Casino
pub mod Mempool
pub mod Codec
pub mod Chain
pub mod Proposal
pub mod Games
pub mod Tests
