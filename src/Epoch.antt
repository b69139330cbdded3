-- ===== src/Epoch.antt =====
-- The global epoch word, src/globalEscort.cpp and src/globalEscort.hpp: a counter in the lower 62
-- bits and the phase of the checkpoint in the higher two. `none` is `DEBUG_ERROR`, which ends the
-- process.
use Prim.Native.Nat.{bit_and, bit_or, bit_xor}
use escort.Prelude.{ℕ, Option, none, some, ◌==◌, if◌then◌else◌}
pub mod Phase

pub data EpochPhase : Type 0 where
  multi_epoch_existence log_persistence nvm_heap_update default : EpochPhase

abbrev pub epoch_mask : ℕ
epoch_mask = 0x3fffffffffffffff

abbrev pub mask_multiple_epoch_existence : ℕ
mask_multiple_epoch_existence = 0x8000000000000000

abbrev pub mask_log_persistence : ℕ
mask_log_persistence = 0x4000000000000000

abbrev pub mask_nvm_heap_update : ℕ
mask_nvm_heap_update = 0x0000000000000000

unfoldable pub epoch : ℕ → ℕ
epoch e = bit_and e epoch_mask

unfoldable pub set_phase : ℕ → EpochPhase → Option ℕ
set_phase e multi_epoch_existence =
    some (bit_or (bit_and e epoch_mask) mask_multiple_epoch_existence)
set_phase e log_persistence = some (bit_or (bit_and e epoch_mask) mask_log_persistence)
set_phase e nvm_heap_update = some (bit_or (bit_and e epoch_mask) mask_nvm_heap_update)
set_phase e default = none

unfoldable pub get_phase : ℕ → Option EpochPhase
get_phase e =
    let mask_phase = bit_xor (bit_and e epoch_mask) e in
    if mask_phase == mask_multiple_epoch_existence
    then some multi_epoch_existence
    else (if mask_phase == mask_log_persistence
        then some log_persistence
        else (if mask_phase == mask_nvm_heap_update then some nvm_heap_update else none))
