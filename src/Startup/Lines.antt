-- ===== src/Startup/Lines.antt =====
-- Lines and their bytes.
use escort.Prelude.{ℕ, zero, suc, ◌+◌, ◌*◌, ◌/◌, ◌^◌, ◌<◌, ◌≡◌, refl, arith}
use escort.Plog.{Cacheline}
use escort.Startup.{byte_of}

-- The number that `k` bytes are.
abbrev pub line_from : ℕ → (ℕ → ℕ) → Cacheline
line_from zero b = 0
line_from (suc k) b = b 0 + 256 * line_from k (λ j. b (suc j))

pub line_from-agrees :
    (k : ℕ) (b c : ℕ → ℕ) → ((j : ℕ) → j < k → b j ≡ c j) → line_from k b ≡ line_from k c
line_from-agrees zero b c h = refl
line_from-agrees (suc k) b c h = omega (
  arith,
  h 0 (omega arith),
  line_from-agrees k (λ j. b (suc j)) (λ j. c (suc j)) (λ j l. h (suc j) (omega arith)),
)

-- A line of `k` bytes is made up of its bytes.
pub line_from-byte_of : (k : ℕ) (v : Cacheline) → v < 256 ^ k → line_from k (byte_of v) ≡ v
line_from-byte_of zero v h = ground arith
line_from-byte_of (suc k) v h = omega (arith, line_from-byte_of k (v / 256) (below k v h))
  where
    below : (k v : ℕ) → v < 256 ^ suc k → v / 256 < 256 ^ k
    below k v h = omega (arith, h)
