-- ===== src/Bytemap/Size.antt =====
-- `set_obj_size` writes the size of a block over as many bytes as it takes, 64 lines to a byte.
use Prim.Native.Nat.{min}
use escort.Prelude.{
  ℕ, zero, suc, ◌+◌, ◌-◌, ◌*◌, ◌/◌, ◌≤◌, ◌<◌, ◌≡◌, ◌↔◌, none, some, leb, ltb, if◌then◌else◌, update,
  arith,
}
use escort.Address.{cache_line_size, heap_size}
use escort.Bytemap.{Bytemap, fill, set_obj_size}

-- How many bytes a size of `sum` lines takes, and byte `j` of them.
abbrev pub num_blocks : ℕ → ℕ
num_blocks sum = (sum + 63) / 64

abbrev pub block_byte : ℕ → ℕ → ℕ
block_byte sum j = if leb ((j + 1) * 64) sum then 64 else sum - j * 64

abbrev written : ℕ → ℕ → Bytemap → Bytemap
written index sum m i =
    if ltb i index
    then m i
    else (if ltb i (index + num_blocks sum) then block_byte sum (i - index) else m i)

fill-eq-written :
    (fuel index sum : ℕ) (m : Bytemap)
    → sum ≤ fuel
    → (i : ℕ) → fill fuel index sum m i ≡ written index sum m i
unfolding fill
fill-eq-written zero index sum m h i = ground arith
fill-eq-written (suc fuel) index sum m h i = ground (
  arith,
  fill-eq-written fuel (suc index) (sum - 64) (update m index 64) (omega arith) i,
  fill-eq-written fuel (suc index) 0 (update m index sum) (omega arith) i,
)

-- The sum of `n` bytes from `index` on.
pub total : Bytemap → ℕ → ℕ → ℕ
total m index zero = 0
total m index (suc n) = total m index n + m (index + n)

total-written :
    (m m' : Bytemap) (index sum n : ℕ)
    → ((i : ℕ) → m' i ≡ written index sum m i)
    → n ≤ num_blocks sum
    → total m' index n ≡ min (n * 64) sum
unfolding total
total-written m m' index sum zero same h = omega arith
total-written m m' index sum (suc n) same h =
    ground (arith, same (index + n), total-written m m' index sum n same (omega arith))

-- What `set_obj_size` leaves in the map.
pub record Sized (index sum : ℕ) (m m' : Bytemap) : Type 0 where
  pub low : (i : ℕ) → i < index → m' i ≡ m i
  pub high : (i : ℕ) → index + num_blocks sum ≤ i → m' i ≡ m i
  pub inside : (j : ℕ) → j < num_blocks sum → m' (index + j) ≡ block_byte sum j
  pub sized : total m' index (num_blocks sum) ≡ sum

-- Where the block lies within the map, the size in lines is written from `index` on as full bytes
-- of 64 and a rest, the bytes add up to it, and no other byte changes.
pub set_obj_size-Sized :
    (index obj_size : ℕ) (m : Bytemap)
    → index + num_blocks (obj_size / cache_line_size) ≤ heap_size / cache_line_size
    → (m' : Bytemap) × (set_obj_size index obj_size m ≡ some m')
      × Sized index (obj_size / cache_line_size) m m'
unfolding set_obj_size
set_obj_size-Sized index obj_size m h = (
  m',
  ground arith,
  record {
    low = λ i l. ground (arith, same i);
    high = λ i l. ground (arith, same i);
    inside = λ j l. ground (arith, same (index + j));
    sized = omega (arith, total-written m m' index sum (num_blocks sum) same (omega arith));
  },
)
  where
    sum : ℕ
    sum = obj_size / cache_line_size

    m' : Bytemap
    m' = fill sum index sum m

    same : (i : ℕ) → m' i ≡ written index sum m i
    same i = fill-eq-written sum index sum m (omega arith) i

-- A block that does not lie within the map fails the assertion, and nothing is written.
pub set_obj_size-eq-none :
    (index obj_size : ℕ) (m : Bytemap)
    → (set_obj_size index obj_size m ≡ none)
      ↔ (heap_size / cache_line_size < index + num_blocks (obj_size / cache_line_size))
unfolding set_obj_size
set_obj_size-eq-none index obj_size m = (λ h. ground arith, λ h. ground arith)
