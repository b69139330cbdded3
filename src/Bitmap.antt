-- ===== src/Bitmap.antt =====
-- src/bitmap_t.hpp: one flag for each cache line of the heap. The bounds of the array are not
-- checked by the code, and an index is any number here.
use escort.Prelude.{ℕ, zero, suc, Bool, true, false, not, Option, some, update, assert, ◌>>◌}

pub record Bitmap : Type 0 where
  pub bitmap : ℕ → Bool
  pub size : ℕ

abbrev pub is_set : Bitmap → ℕ → Bool
is_set b index = b.bitmap index

-- `calloc`
abbrev pub new : ℕ → Bitmap
new size = record { bitmap = λ _. false; size = size }

unfoldable pub set : ℕ → Bitmap → Option Bitmap
set index b = do
  assert (not (b.bitmap index))
  some (record b { bitmap = update b.bitmap index true })

abbrev pub clear : ℕ → Bitmap → Bitmap
clear index b = record b { bitmap = update b.bitmap index false }

-- The loop of `is_clear`, over the indices that are left.
unfoldable pub is_clear_below : ℕ → Bitmap → Bool
is_clear_below zero b = true
is_clear_below (suc n) b = elim (b.bitmap n) [ true ↦ false | false ↦ is_clear_below n b ]
