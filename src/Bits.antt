-- ===== src/Bits.antt =====
-- Masks as arithmetic, at every width: the low bits of a number, a field above the low bits, and
-- what is left of a number when its low bits are taken off by exclusive or.
use Prim.Native.Nat.{
  digits, min, max, differ, bit_and, bit_or, bit_xor, bit_and-bitwise, bit_or-bitwise,
  bit_xor-bitwise,
}
use native.Mathlib.Nat.{pow-suc, one-le-pow}
use escort.Prelude.{ℕ, zero, suc, ◌+◌, ◌-◌, ◌*◌, ◌/◌, ◌%◌, ◌^◌, ◌≤◌, ◌<◌, ◌≡◌, refl, ap, ◌∙◌, arith}

-- The induction is on the width, under any number of digits that is large enough.
double : (q k : ℕ) → q * 2 ^ suc k ≡ 2 * (q * 2 ^ k)
double q k = omega (arith, ap (λ (t : ℕ). q * t) (pow-suc 2 k))

and_low :
    (k n a q r : ℕ)
    → a ≤ n
    → a ≡ q * 2 ^ k + r
    → r < 2 ^ k
    → digits (λ b. 0) min n a (2 ^ k - 1) ≡ r
and_low zero zero a q r h e l = omega arith
and_low zero (suc n) zero q r h e l = omega arith
and_low zero (suc n) (suc a) q r h e l =
    omega
      (arith, and_low zero n (suc a / 2) (suc a / 2) 0 (omega arith) (omega arith) (omega arith))
and_low (suc k) zero a q r h e l = omega (arith, double q k)
and_low (suc k) (suc n) zero q r h e l = omega (arith, double q k)
and_low (suc k) (suc n) (suc a) q r h e l =
    rw (halved, odd)
      (omega (
        arith,
        double q k,
        and_low k n (suc a / 2) q (r / 2) (omega arith) (omega (arith, double q k))
            (omega (arith, pow-suc 2 k)),
      ))
  where
    halved : (2 ^ suc k - 1) / 2 ≡ 2 ^ k - 1
    halved = omega (arith, pow-suc 2 k, one-le-pow k 2)

    odd : (2 ^ suc k - 1) % 2 ≡ 1
    odd = omega (arith, pow-suc 2 k, one-le-pow k 2)

or_high : (k n a q : ℕ) → a ≤ n → a < 2 ^ k → digits (λ b. b) max n a (q * 2 ^ k) ≡ q * 2 ^ k + a
or_high zero zero zero q h l = omega arith
or_high zero (suc n) zero q h l = omega arith
or_high zero n (suc a) q h l = absurd (omega arith)
or_high (suc k) zero zero q h l = omega arith
or_high (suc k) (suc n) zero q h l = omega arith
or_high (suc k) zero (suc a) q h l = absurd (omega arith)
or_high (suc k) (suc n) (suc a) q h l = rw halved (
    omega (arith, double q k, or_high k n (suc a / 2) q (omega arith) (omega (arith, pow-suc 2 k))))
  where
    halved : q * 2 ^ suc k / 2 ≡ q * 2 ^ k
    halved = omega (arith, double q k)

differ_self : (d : ℕ) → differ d d ≡ 0
differ_self zero = refl
differ_self (suc d) = differ_self d

xor_low : (k n a q : ℕ) → a ≤ n → a < 2 ^ k → digits (λ b. b) differ n a (q * 2 ^ k + a) ≡ q * 2 ^ k
xor_low zero zero zero q h l = omega arith
xor_low zero (suc n) zero q h l = omega arith
xor_low zero n (suc a) q h l = absurd (omega arith)
xor_low (suc k) zero zero q h l = omega arith
xor_low (suc k) (suc n) zero q h l = omega arith
xor_low (suc k) zero (suc a) q h l = absurd (omega arith)
xor_low (suc k) (suc n) (suc a) q h l =
    rw (halved, same, differ_self (suc a % 2))
      (omega
        (arith, double q k, xor_low k n (suc a / 2) q (omega arith) (omega (arith, pow-suc 2 k))))
  where
    halved : (q * 2 ^ suc k + suc a) / 2 ≡ q * 2 ^ k + suc a / 2
    halved = omega (arith, double q k)

    same : (q * 2 ^ suc k + suc a) % 2 ≡ suc a % 2
    same = omega (arith, double q k)

-- `a & (2^k - 1)` keeps the low `k` bits.
pub bit_and_mask : (k a : ℕ) → bit_and a (2 ^ k - 1) ≡ a % 2 ^ k
bit_and_mask k a =
    bit_and-bitwise a (2 ^ k - 1)
    ∙ and_low k a a (a / 2 ^ k) (a % 2 ^ k) (omega arith) (grind arith)
        (grind (arith, one-le-pow k 2))

-- `a | (q << k)` is a sum where `a` has `k` bits.
pub bit_or_field : (k a q : ℕ) → a < 2 ^ k → bit_or a (q * 2 ^ k) ≡ q * 2 ^ k + a
bit_or_field k a q l = bit_or-bitwise a (q * 2 ^ k) ∙ or_high k a a q (omega arith) l

-- `a ^ ((q << k) | a)` is what stands above the low `k` bits.
pub bit_xor_field : (k a q : ℕ) → a < 2 ^ k → bit_xor a (q * 2 ^ k + a) ≡ q * 2 ^ k
bit_xor_field k a q l = bit_xor-bitwise a (q * 2 ^ k + a) ∙ xor_low k a a q (omega arith) l
