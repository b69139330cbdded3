-- ===== src/Plog/Management.antt =====
-- The store that the constructor of `plog_management_t` sets up.
use escort.Prelude.{ℕ, zero, suc, ◌≤◌, ◌≡◌, refl, count, arith}
use escort.Chain.{Block}
use escort.Chain.Valid.{Valid}
use escort.Plog.{Entry, blocks, management, log_block_num}

pub count-blocks_above : (n b : ℕ) → n ≤ b → count b (blocks n) ≡ 0
count-blocks_above zero b h = refl
count-blocks_above (suc n) b h = ground (arith, count-blocks_above n b)

pub count-blocks-le : (n b : ℕ) → count b (blocks n) ≤ 1
count-blocks-le zero b = omega arith
count-blocks-le (suc n) b = ground (arith, count-blocks-le n b, count-blocks_above n b)

-- Every block is in the pool once and empty, and no log holds one.
pub management-Valid :
    (n : ℕ) (area : ℕ → Block (Unit {0}) Entry) → Valid log_block_num (management n area)
unfolding management
management-Valid n area = record {
  single = λ b. ground (arith, count-blocks-le n b);
  owned = λ k b. omega arith;
  apart = λ j k b h. omega arith;
  cleared = λ b h. ground (arith, count-blocks_above n b);
  bounded = λ b h. absurd (omega arith);
}
