-- ===== src/Durability/Parity.antt =====
-- Two epochs that follow one another use different bitmaps, lists and logs.
use escort.Prelude.{ℕ, ◌+◌, ◌%◌, ◌≡◌, sym, ap, ◌∙◌, not, ◌==◌, arith}
use escort.Bits.{bit_and_mask}
use escort.Epoch.{epoch}
use escort.Epoch.Phase.{epoch-eq-mod}
use escort.World.{curr_of}

-- The parity of the word is that of its counter.
pub curr_of_lem : (e : ℕ) → curr_of e ≡ not (epoch e % 2 == 0)
unfolding curr_of
curr_of_lem e = ap (λ b. not (b == 0)) (bit_and_mask 1 e ∙ omega (arith, epoch-eq-mod e))

pub curr_of-same : (e g : ℕ) → epoch e ≡ epoch g → curr_of e ≡ curr_of g
curr_of-same e g h = curr_of_lem e ∙ ap (λ c. not (c % 2 == 0)) h ∙ sym (curr_of_lem g)

pub curr_of-next : (e g : ℕ) → epoch e + 1 ≡ epoch g → curr_of e ≡ not (curr_of g)
curr_of-next e g h = curr_of_lem e ∙ ground (arith, curr_of_lem g)
