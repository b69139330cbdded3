-- ===== src/Tests/Words.antt =====
-- The epoch word and the size map at concrete values.
use escort.Prelude.{ℕ, ◌+◌, ◌*◌, ◌/◌, ◌^◌, ◌<◌, ◌≡◌, refl, some, arith}
use escort.Address.{cache_line_size}
use escort.Epoch.{multi_epoch_existence, log_persistence, epoch, set_phase, get_phase}
use escort.Epoch.Phase.{next, set_phase_fields}
use escort.Bytemap.{Bytemap, set_obj_size}
use escort.Bytemap.Size.{Sized, set_obj_size-Sized}

-- `set_phase(epoch+1, ...)` from the word of epoch 5 in `Log_Persistence`.
next_epoch : set_phase (next (2 ^ 62 + 5)) multi_epoch_existence ≡ some (2 ^ 63 + 6)
unfolding set_phase
next_epoch = refl

set_phase_fields_example :
    (e' : ℕ) × (set_phase (2 ^ 63 + 5) log_persistence ≡ some e')
    × (epoch e' ≡ epoch (2 ^ 63 + 5))
    × (get_phase e' ≡ some log_persistence)
    × (e' < 2 ^ 64)
set_phase_fields_example = set_phase_fields (2 ^ 63 + 5) log_persistence (λ e. cc)

-- A block of 130 lines at index 3: 64, 64 and 2.
set_obj_size-Sized_example :
    (m' : Bytemap) × (set_obj_size 3 (130 * 64) (λ _. 0) ≡ some m')
    × Sized 3 (130 * 64 / cache_line_size) (λ _. 0) m'
set_obj_size-Sized_example = set_obj_size-Sized 3 (130 * 64) (λ _. 0) (omega arith)
