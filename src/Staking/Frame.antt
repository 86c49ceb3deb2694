-- ===== src/Staking/Frame.antt =====
-- The staking handlers leave the accounts alone.
use supersociety_battleware.Base.{ℕ, arith}
use supersociety_battleware.Types.{PublicKey}
use supersociety_battleware.Layer.{Layer, Leaves}
use supersociety_battleware.Layer.Frame.{IsSound, Keeps, frame_laws}
use supersociety_battleware.Staking.{
  handle_stake, handle_unstake, handle_claim_rewards, handle_process_epoch,
}

pub handle_stake-Keeps :
    (q p : PublicKey) (amount duration : ℕ) (l : Layer)
    → IsSound l
    → Leaves (handle_stake p amount duration l) (Keeps q l)
unfolding handle_stake
handle_stake-Keeps q p amount duration l s = grind (arith, frame_laws)

pub handle_unstake-Keeps :
    (q p : PublicKey) (l : Layer) → IsSound l → Leaves (handle_unstake p l) (Keeps q l)
unfolding handle_unstake
handle_unstake-Keeps q p l s = grind (arith, frame_laws)

pub handle_claim_rewards-Keeps :
    (q p : PublicKey) (l : Layer) → IsSound l → Leaves (handle_claim_rewards p l) (Keeps q l)
unfolding handle_claim_rewards
handle_claim_rewards-Keeps q p l s = grind (arith, frame_laws)

pub handle_process_epoch-Keeps :
    (q p : PublicKey) (l : Layer) → IsSound l → Leaves (handle_process_epoch p l) (Keeps q l)
unfolding handle_process_epoch
handle_process_epoch-Keeps q p l s = grind (arith, frame_laws)
