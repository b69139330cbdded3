-- ===== src/Allocatorlog/Management.antt =====
-- The store that the constructor of `allocatorlog_management_t` sets up.
use escort.Prelude.{ℕ, arith}
use escort.Chain.{Block}
use escort.Chain.Valid.{Valid}
use escort.Plog.Management.{count-blocks-le, count-blocks_above}
use escort.Allocatorlog.{AllocEntry, allocator_log_block_num, management}

-- Every block is in the pool once and empty, and no log holds one.
pub management-ready :
    (n : ℕ) (area : ℕ → Block ℕ AllocEntry) → Valid allocator_log_block_num (management n area)
unfolding management
management-ready n area = record {
  single = λ b. ground (arith, count-blocks-le n b);
  owned = λ k b. omega arith;
  apart = λ j k b h. omega arith;
  cleared = λ b h. ground (arith, count-blocks_above n b);
  bounded = λ b h. absurd (omega arith);
}
