-- ===== src/Epoch/Phase.antt =====
-- The counter and the phase are independent fields of the epoch word.
use Prim.Native.Nat.{bit_and, bit_or, bit_xor}
use escort.Prelude.{
  ℕ, ◌+◌, ◌*◌, ◌/◌, ◌%◌, ◌^◌, ◌≤◌, ◌<◌, ◌≡◌, ◌≢◌, ◌↔◌, refl, ap, ◌≡⟨◌⟩◌, ◌∎, Option, none, some,
  ◌==◌, if◌then◌else◌, arith,
}
use escort.Bits.{bit_and_mask, bit_or_field, bit_xor_field}
use escort.Epoch.{
  EpochPhase, multi_epoch_existence, log_persistence, nvm_heap_update, default, epoch_mask, epoch,
  set_phase, get_phase,
}

-- The two bits that stand for a phase.
abbrev pub phase_code : EpochPhase → ℕ
phase_code multi_epoch_existence = 2
phase_code log_persistence = 1
phase_code nvm_heap_update = 0
phase_code default = 3

pub epoch-eq-mod : (e : ℕ) → epoch e ≡ e % 2 ^ 62
unfolding epoch
epoch-eq-mod e = bit_and_mask 62 e

pub epoch-lt : (e : ℕ) → epoch e < 2 ^ 62
epoch-lt e = omega (arith, epoch-eq-mod e)

phase_bits : (e : ℕ) → bit_xor (bit_and e epoch_mask) e ≡ e / 2 ^ 62 * 2 ^ 62
phase_bits e =
    bit_xor (bit_and e epoch_mask) e
    ≡⟨ ap (λ m. bit_xor m e) (bit_and_mask 62 e) ⟩ bit_xor (e % 2 ^ 62) e
    ≡⟨ ap (bit_xor (e % 2 ^ 62)) whole ⟩ bit_xor (e % 2 ^ 62) (e / 2 ^ 62 * 2 ^ 62 + e % 2 ^ 62)
    ≡⟨ bit_xor_field 62 (e % 2 ^ 62) (e / 2 ^ 62) (omega arith) ⟩ e / 2 ^ 62 * 2 ^ 62 ∎
  where
    whole : e ≡ e / 2 ^ 62 * 2 ^ 62 + e % 2 ^ 62
    whole = omega arith

-- The phase by arithmetic.
pub get_phase_lem :
    (e : ℕ)
    → get_phase e ≡ (
        let code = e / 2 ^ 62 in
        if code == 2
        then some multi_epoch_existence
        else (if code == 1
            then some log_persistence
            else (if code == 0 then some nvm_heap_update else none)))
unfolding get_phase
get_phase_lem e = rw (phase_bits e) (ground arith)

set_phase_field : (e q : ℕ) → bit_or (bit_and e epoch_mask) (q * 2 ^ 62) ≡ q * 2 ^ 62 + epoch e
unfolding epoch
set_phase_field e q = bit_or_field 62 (bit_and e epoch_mask) q (epoch-lt e)

pub set_phase_lem :
    (e : ℕ) (p : EpochPhase) → p ≢ default → set_phase e p ≡ some (phase_code p * 2 ^ 62 + epoch e)
unfolding set_phase
set_phase_lem e multi_epoch_existence n = ap some (set_phase_field e 2)
set_phase_lem e log_persistence n = ap some (set_phase_field e 1)
set_phase_lem e nvm_heap_update n = ap some (set_phase_field e 0)
set_phase_lem e default n = absurd (n refl)

-- `epoch + 1` of an `epoch_t`
abbrev pub next : ℕ → ℕ
next e = (e + 1) % 2 ^ 64

get_phase_word :
    (p : EpochPhase) (c : ℕ)
    → p ≢ default
    → c < 2 ^ 62
    → get_phase (phase_code p * 2 ^ 62 + c) ≡ some p
get_phase_word multi_epoch_existence c n l = rw get_phase_lem (ground arith)
get_phase_word log_persistence c n l = rw get_phase_lem (ground arith)
get_phase_word nvm_heap_update c n l = rw get_phase_lem (ground arith)
get_phase_word default c n l = absurd (n refl)

phase_code-lt : (p : EpochPhase) → phase_code p < 4
phase_code-lt p = ground arith

-- For each of the three phases `set_phase` yields a 64-bit word with that phase and with the counter
-- of its argument, whatever phase its argument had.
pub set_phase_fields :
    (e : ℕ) (p : EpochPhase)
    → p ≢ default
    → (e' : ℕ) × (set_phase e p ≡ some e')
      × (epoch e' ≡ epoch e)
      × (get_phase e' ≡ some p)
      × (e' < 2 ^ 64)
set_phase_fields e p n = (
  word,
  set_phase_lem e p n,
  omega (arith, epoch-eq-mod word, epoch-lt e),
  get_phase_word p (epoch e) n (epoch-lt e),
  omega (arith, phase_code-lt p, epoch-lt e),
)
  where
    word : ℕ
    word = phase_code p * 2 ^ 62 + epoch e

pub epoch-next : (e : ℕ) → e < 2 ^ 64 → epoch e + 1 < 2 ^ 62 → epoch (next e) ≡ epoch e + 1
epoch-next e fits room = omega (arith, epoch-eq-mod e, epoch-eq-mod (next e))

-- A word that went through `Epoch` reads as `NVM_Heap_Update`: its phase is gone.
pub get_phase-epoch : (e : ℕ) → get_phase (epoch e) ≡ some nvm_heap_update
get_phase-epoch e = rw get_phase_lem (ground (arith, epoch-lt e))

-- `get_phase` stops the process on exactly the words with both phase bits set.
pub get_phase-eq-none : (e : ℕ) → e < 2 ^ 64 → (get_phase e ≡ none) ↔ (3 * 2 ^ 62 ≤ e)
get_phase-eq-none e l = rw get_phase_lem (to, from)
  where
    decode : ℕ → Option EpochPhase
    decode code =
        if code == 2
        then some multi_epoch_existence
        else (if code == 1
            then some log_persistence
            else (if code == 0 then some nvm_heap_update else none))

    to : decode (e / 2 ^ 62) ≡ none → 3 * 2 ^ 62 ≤ e
    to h = ground arith

    from : 3 * 2 ^ 62 ≤ e → decode (e / 2 ^ 62) ≡ none
    from h = ground arith
