-- ===== src/Types/Economy.antt =====
-- types/src/casino/economy.rs: the house, a staker, a vault and the exchange pool.
use supersociety_battleware.Base.{ℕ, ℤ, pos}
use supersociety_battleware.Types.Constants.{
  three_card_progressive_base_jackpot, uth_progressive_base_jackpot,
}

pub record HouseState : Type 0 where
  pub current_epoch : ℕ
  pub epoch_start_ts : ℕ
  pub net_pnl : ℤ
  pub total_staked_amount : ℕ
  pub total_voting_power : ℕ
  pub accumulated_fees : ℕ
  pub total_burned : ℕ
  pub total_issuance : ℕ
  pub three_card_progressive_jackpot : ℕ
  pub uth_progressive_jackpot : ℕ

-- `HouseState::new`
abbrev pub new_house : ℕ → HouseState
new_house start_ts = record {
  current_epoch = 0;
  epoch_start_ts = start_ts;
  net_pnl = pos 0;
  total_staked_amount = 0;
  total_voting_power = 0;
  accumulated_fees = 0;
  total_burned = 0;
  total_issuance = 0;
  three_card_progressive_jackpot = three_card_progressive_base_jackpot;
  uth_progressive_jackpot = uth_progressive_base_jackpot;
}

pub record Staker : Type 0 where
  pub balance : ℕ
  pub unlock_ts : ℕ
  pub last_claim_epoch : ℕ
  pub voting_power : ℕ

-- `Staker::default()`
abbrev pub default_staker : Staker
default_staker = record { balance = 0; unlock_ts = 0; last_claim_epoch = 0; voting_power = 0 }

pub record Vault : Type 0 where
  pub collateral_rng : ℕ
  pub debt_vusdt : ℕ

-- `Vault::default()`
abbrev pub default_vault : Vault
default_vault = record { collateral_rng = 0; debt_vusdt = 0 }

pub record AmmPool : Type 0 where
  pub reserve_rng : ℕ
  pub reserve_vusdt : ℕ
  pub total_shares : ℕ
  pub fee_basis_points : ℕ
  pub sell_tax_basis_points : ℕ

-- `AmmPool::new`
abbrev pub new_amm : ℕ → AmmPool
new_amm fee_bps = record {
  reserve_rng = 0;
  reserve_vusdt = 0;
  total_shares = 0;
  fee_basis_points = fee_bps;
  sell_tax_basis_points = 500;
}
