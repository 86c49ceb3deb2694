-- ===== src/Tests/Mempool.antt =====
-- The mempool at concrete inputs.
use supersociety_battleware.Base.{ℕ, suc, ◌+◌, ◌≡◌, refl, none, if◌then◌else◌, ◌&&◌, ltb, ◌==◌}
use supersociety_battleware.Base.Assoc.{find, store, erase, member, remove}
use supersociety_battleware.Types.{Transaction, Instruction}
use supersociety_battleware.Mempool.{
  Mempool, new_with_limits, add, track, retain, next, next_loop, turn, visit, compact, Next,
}
use supersociety_battleware.Mempool.Nonces.{tree_insert}
use supersociety_battleware.Mempool.Invariant.{IsPool, new_with_limits-IsPool, digest_at}
use supersociety_battleware.Mempool.Addition.{add-IsPool}
use supersociety_battleware.Mempool.Retention.{drop_old, digest_at-retain}
use supersociety_battleware.Mempool.Serving.{IsNext, next-IsNext}
use supersociety_battleware.Tests.Data.{alice, bob}

abbrev pub unstake_at : ℕ → Transaction
unstake_at n = record {
  nonce = n;
  instruction = Instruction.unstake;
  public_key = alice;
  signature = 0;
}

abbrev pub bob_tx : Transaction
bob_tx = record { nonce = 4; instruction = Instruction.unstake; public_key = bob; signature = 0 }

-- A digest that tells the transactions of the tests apart.
abbrev pub digest : Transaction → ℕ
digest tx = 10 + tx.nonce

abbrev pub start : Mempool
start = new_with_limits 2 3

-- Alice has two transactions and bob has one.
abbrev pub busy : Mempool
busy = add digest bob_tx (add digest (unstake_at 1) (add digest (unstake_at 2) start))

pub busy-IsPool : IsPool digest busy
busy-IsPool = add-IsPool digest bob_tx _ (
    add-IsPool digest (unstake_at 1) _
      (add-IsPool digest (unstake_at 2) start (new_with_limits-IsPool digest 2 3)))

add-IsPool_example : IsPool digest (add digest (unstake_at 3) busy)
add-IsPool_example = add-IsPool digest (unstake_at 3) busy busy-IsPool

digest_at-retain_example :
    (digest_at alice 1 (retain alice 2 busy)
      ≡ (if alice == alice && ltb 1 2 then none else digest_at alice 1 busy))
    × (find (digest (unstake_at 1)) (retain alice 2 busy).transactions
        ≡ drop_old alice 2 (find (digest (unstake_at 1)) busy.transactions))
digest_at-retain_example =
    digest_at-retain digest alice alice 2 1 (digest (unstake_at 1)) busy busy-IsPool

next-IsNext_example : IsNext digest busy (next busy)
next-IsNext_example = next-IsNext digest busy busy-IsPool

abbrev nonce_of : Next → ℕ
nonce_of (Next.found tx pool) = suc tx.nonce
nonce_of (Next.empty pool) = 0
nonce_of Next.panicked = 0

abbrev after : Next → Mempool
after (Next.found tx pool) = pool
after (Next.empty pool) = pool
after Next.panicked = start

-- The lowest nonce of alice first, then bob, then alice again.
serves_first : nonce_of (next busy) ≡ 2
unfolding next next_loop turn visit compact add track tree_insert find store erase member remove
serves_first = refl

serves_second : nonce_of (next (after (next busy))) ≡ 5
unfolding next next_loop turn visit compact add track tree_insert find store erase member remove
serves_second = refl
