-- ===== src/Codec/Economy.antt =====
-- types/src/casino/economy.rs: the encodings.
use supersociety_battleware.Base.{ℕ, ◌+◌, [], ◌∷◌, arith, length-append}
use supersociety_battleware.Codec.Reader.{
  Bytes, Reader, ◌>>=◌, pure, Reads-bind, Reads-pure, joined, Format, IsFormat,
}
use supersociety_battleware.Codec.Wire.{Wire, IsWire, Word, SignedWord}
use supersociety_battleware.Codec.Strings.{read_u64_or, Reads-u64_or}
use supersociety_battleware.Types.{
  HouseState, Staker, Vault, AmmPool, three_card_progressive_base_jackpot,
  uth_progressive_base_jackpot,
}

-- `HouseState`. An older value ends before the two jackpots.
unfoldable pub write_house : Wire → HouseState → Bytes
write_house w v = joined (
    w.u64.write v.current_epoch
    ∷ w.u64.write v.epoch_start_ts
    ∷ w.i128.write v.net_pnl
    ∷ w.u64.write v.total_staked_amount
    ∷ w.u128.write v.total_voting_power
    ∷ w.u64.write v.accumulated_fees
    ∷ w.u64.write v.total_burned
    ∷ w.u64.write v.total_issuance
    ∷ w.u64.write v.three_card_progressive_jackpot
    ∷ w.u64.write v.uth_progressive_jackpot
    ∷ [])

unfoldable pub read_house : Wire → Reader HouseState
read_house w = do
  current_epoch ← w.u64.read
  epoch_start_ts ← w.u64.read
  net_pnl ← w.i128.read
  total_staked_amount ← w.u64.read
  total_voting_power ← w.u128.read
  accumulated_fees ← w.u64.read
  total_burned ← w.u64.read
  total_issuance ← w.u64.read
  three_card_progressive_jackpot ← read_u64_or w three_card_progressive_base_jackpot
  uth_progressive_jackpot ← read_u64_or w uth_progressive_base_jackpot
  pure (record {
    current_epoch = current_epoch;
    epoch_start_ts = epoch_start_ts;
    net_pnl = net_pnl;
    total_staked_amount = total_staked_amount;
    total_voting_power = total_voting_power;
    accumulated_fees = accumulated_fees;
    total_burned = total_burned;
    total_issuance = total_issuance;
    three_card_progressive_jackpot = three_card_progressive_jackpot;
    uth_progressive_jackpot = uth_progressive_jackpot;
  })

unfoldable pub house_size : Wire → HouseState → ℕ
house_size w v =
    w.u64.encode_size v.current_epoch
    + w.u64.encode_size v.epoch_start_ts
    + w.i128.encode_size v.net_pnl
    + w.u64.encode_size v.total_staked_amount
    + w.u128.encode_size v.total_voting_power
    + w.u64.encode_size v.accumulated_fees
    + w.u64.encode_size v.total_burned
    + w.u64.encode_size v.total_issuance
    + w.u64.encode_size v.three_card_progressive_jackpot
    + w.u64.encode_size v.uth_progressive_jackpot

abbrev pub house_format : Wire → Format HouseState
house_format w = record { write = write_house w; read = read_house w; encode_size = house_size w }

-- `Staker`
unfoldable pub write_staker : Wire → Staker → Bytes
write_staker w v = joined (
    w.u64.write v.balance
    ∷ w.u64.write v.unlock_ts
    ∷ w.u64.write v.last_claim_epoch
    ∷ w.u128.write v.voting_power
    ∷ [])

unfoldable pub read_staker : Wire → Reader Staker
read_staker w = do
  balance ← w.u64.read
  unlock_ts ← w.u64.read
  last_claim_epoch ← w.u64.read
  voting_power ← w.u128.read
  pure (record {
    balance = balance;
    unlock_ts = unlock_ts;
    last_claim_epoch = last_claim_epoch;
    voting_power = voting_power;
  })

unfoldable pub staker_size : Wire → Staker → ℕ
staker_size w v =
    w.u64.encode_size v.balance
    + w.u64.encode_size v.unlock_ts
    + w.u64.encode_size v.last_claim_epoch
    + w.u128.encode_size v.voting_power

abbrev pub staker_format : Wire → Format Staker
staker_format w = record {
  write = write_staker w;
  read = read_staker w;
  encode_size = staker_size w;
}

-- `Vault`
unfoldable pub write_vault : Wire → Vault → Bytes
write_vault w v = joined (w.u64.write v.collateral_rng ∷ w.u64.write v.debt_vusdt ∷ [])

unfoldable pub read_vault : Wire → Reader Vault
read_vault w = do
  collateral_rng ← w.u64.read
  debt_vusdt ← w.u64.read
  pure (record { collateral_rng = collateral_rng; debt_vusdt = debt_vusdt })

unfoldable pub vault_size : Wire → Vault → ℕ
vault_size w v = w.u64.encode_size v.collateral_rng + w.u64.encode_size v.debt_vusdt

abbrev pub vault_format : Wire → Format Vault
vault_format w = record { write = write_vault w; read = read_vault w; encode_size = vault_size w }

-- `AmmPool`
unfoldable pub write_amm_pool : Wire → AmmPool → Bytes
write_amm_pool w v = joined (
    w.u64.write v.reserve_rng
    ∷ w.u64.write v.reserve_vusdt
    ∷ w.u64.write v.total_shares
    ∷ w.u16.write v.fee_basis_points
    ∷ w.u16.write v.sell_tax_basis_points
    ∷ [])

unfoldable pub read_amm_pool : Wire → Reader AmmPool
read_amm_pool w = do
  reserve_rng ← w.u64.read
  reserve_vusdt ← w.u64.read
  total_shares ← w.u64.read
  fee_basis_points ← w.u16.read
  sell_tax_basis_points ← w.u16.read
  pure (record {
    reserve_rng = reserve_rng;
    reserve_vusdt = reserve_vusdt;
    total_shares = total_shares;
    fee_basis_points = fee_basis_points;
    sell_tax_basis_points = sell_tax_basis_points;
  })

unfoldable pub amm_pool_size : Wire → AmmPool → ℕ
amm_pool_size w v =
    w.u64.encode_size v.reserve_rng
    + w.u64.encode_size v.reserve_vusdt
    + w.u64.encode_size v.total_shares
    + w.u16.encode_size v.fee_basis_points
    + w.u16.encode_size v.sell_tax_basis_points

abbrev pub amm_pool_format : Wire → Format AmmPool
amm_pool_format w = record {
  write = write_amm_pool w;
  read = read_amm_pool w;
  encode_size = amm_pool_size w;
}

-- The fields are in the ranges of their formats.
pub record FitsHouse (w : Wire) (v : HouseState) : Type 0 where
  pub current_epoch : Word 64 v.current_epoch
  pub epoch_start_ts : Word 64 v.epoch_start_ts
  pub net_pnl : SignedWord 127 v.net_pnl
  pub total_staked_amount : Word 64 v.total_staked_amount
  pub total_voting_power : Word 128 v.total_voting_power
  pub accumulated_fees : Word 64 v.accumulated_fees
  pub total_burned : Word 64 v.total_burned
  pub total_issuance : Word 64 v.total_issuance
  pub three_card_progressive_jackpot : Word 64 v.three_card_progressive_jackpot
  pub uth_progressive_jackpot : Word 64 v.uth_progressive_jackpot

pub house_format-IsFormat : (w : Wire) → IsWire w → IsFormat (house_format w) (FitsHouse w)
unfolding write_house read_house house_size
house_format-IsFormat w l = record {
  reads = λ v h. Reads-bind _ (l.u64.reads v.current_epoch h.current_epoch) (
      Reads-bind _ (l.u64.reads v.epoch_start_ts h.epoch_start_ts) (
        Reads-bind _ (l.i128.reads v.net_pnl h.net_pnl) (
          Reads-bind _ (l.u64.reads v.total_staked_amount h.total_staked_amount) (
            Reads-bind _ (l.u128.reads v.total_voting_power h.total_voting_power) (
              Reads-bind _ (l.u64.reads v.accumulated_fees h.accumulated_fees) (
                Reads-bind _ (l.u64.reads v.total_burned h.total_burned) (
                  Reads-bind _ (l.u64.reads v.total_issuance h.total_issuance) (
                    Reads-bind _
                      (Reads-u64_or w l three_card_progressive_base_jackpot
                        v.three_card_progressive_jackpot h.three_card_progressive_jackpot)
                      (Reads-bind _
                        (Reads-u64_or w l uth_progressive_base_jackpot v.uth_progressive_jackpot
                          h.uth_progressive_jackpot)
                        (Reads-pure _))))))))));
  sized = λ v. simp (length-append, l.u64.sized, l.i128.sized, l.u128.sized) (omega arith);
}

-- The fields are in the ranges of their formats.
pub record FitsStaker (w : Wire) (v : Staker) : Type 0 where
  pub balance : Word 64 v.balance
  pub unlock_ts : Word 64 v.unlock_ts
  pub last_claim_epoch : Word 64 v.last_claim_epoch
  pub voting_power : Word 128 v.voting_power

pub staker_format-IsFormat : (w : Wire) → IsWire w → IsFormat (staker_format w) (FitsStaker w)
unfolding write_staker read_staker staker_size
staker_format-IsFormat w l = record {
  reads = λ v h. Reads-bind _ (l.u64.reads v.balance h.balance) (
      Reads-bind _ (l.u64.reads v.unlock_ts h.unlock_ts) (
        Reads-bind _ (l.u64.reads v.last_claim_epoch h.last_claim_epoch)
          (Reads-bind _ (l.u128.reads v.voting_power h.voting_power) (Reads-pure _))));
  sized = λ v. simp (length-append, l.u64.sized, l.u128.sized) (omega arith);
}

-- The fields are in the ranges of their formats.
pub record FitsVault (w : Wire) (v : Vault) : Type 0 where
  pub collateral_rng : Word 64 v.collateral_rng
  pub debt_vusdt : Word 64 v.debt_vusdt

pub vault_format-IsFormat : (w : Wire) → IsWire w → IsFormat (vault_format w) (FitsVault w)
unfolding write_vault read_vault vault_size
vault_format-IsFormat w l = record {
  reads = λ v h.
      Reads-bind _ (l.u64.reads v.collateral_rng h.collateral_rng)
        (Reads-bind _ (l.u64.reads v.debt_vusdt h.debt_vusdt) (Reads-pure _));
  sized = λ v. simp (length-append, l.u64.sized) (omega arith);
}

-- The fields are in the ranges of their formats.
pub record FitsPool (w : Wire) (v : AmmPool) : Type 0 where
  pub reserve_rng : Word 64 v.reserve_rng
  pub reserve_vusdt : Word 64 v.reserve_vusdt
  pub total_shares : Word 64 v.total_shares
  pub fee_basis_points : Word 16 v.fee_basis_points
  pub sell_tax_basis_points : Word 16 v.sell_tax_basis_points

pub amm_pool_format-IsFormat : (w : Wire) → IsWire w → IsFormat (amm_pool_format w) (FitsPool w)
unfolding write_amm_pool read_amm_pool amm_pool_size
amm_pool_format-IsFormat w l = record {
  reads = λ v h. Reads-bind _ (l.u64.reads v.reserve_rng h.reserve_rng) (
      Reads-bind _ (l.u64.reads v.reserve_vusdt h.reserve_vusdt) (
        Reads-bind _ (l.u64.reads v.total_shares h.total_shares) (
          Reads-bind _ (l.u16.reads v.fee_basis_points h.fee_basis_points) (
            Reads-bind _ (l.u16.reads v.sell_tax_basis_points h.sell_tax_basis_points)
              (Reads-pure _)))));
  sized = λ v. simp (length-append, l.u64.sized, l.u16.sized) (omega arith);
}
