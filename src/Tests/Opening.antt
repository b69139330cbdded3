-- ===== src/Tests/Opening.antt =====
-- A new file "nvm", opened by two processes one after the other.
use escort.Prelude.{
  ℕ, ◌+◌, ◌-◌, ◌*◌, ◌^◌, ◌≡◌, refl, true, some, none, List, [], ◌∷◌, ◌==◌, if◌then◌else◌, length,
}
use escort.Address.{dram_base, heap_size}
use escort.NvmConfig.{create_area}
use escort.NvmConfig.Open.{
  Os, NvmConfig, nvmconfig, open_config, escort_is_recovery, opened_is_recovery,
}

abbrev path : List ℕ
path = 110 ∷ 118 ∷ 109 ∷ []

-- Descriptors are the lengths of paths, and mappings lie apart.
abbrev place : ℕ → ℕ
place fd = dram_base + 2 ^ 40 - 64 + fd * 2 ^ 36

abbrev system : (ℕ → ℕ) → Os
system words = record {
  open_file = λ p. some (length p);
  file_size = λ p. 2 ^ 36;
  mmap = λ size fd. some (place fd);
  words = λ fd a. words a;
}

abbrev zeros : ℕ → ℕ
zeros a = 0

abbrev used : ℕ → ℕ
used a = if a == place 3 then dram_base else 0

abbrev config_on : (ℕ → ℕ) → NvmConfig
config_on words = record {
  config = create_area (place 3) (2 ^ 36) heap_size words;
  redolog_area = (place 11, 2 ^ 36);
  allocatorlog_area = (place 16, 2 ^ 36);
}

nvmconfig-zeros : nvmconfig (system zeros) path heap_size ≡ some (config_on zeros)
unfolding nvmconfig
nvmconfig-zeros = refl

is_recovery-used : escort_is_recovery (system used) path none ≡ some (true, config_on used)
unfolding escort_is_recovery open_config nvmconfig create_area
is_recovery-used = refl

first_word :
    (fd : ℕ)
    → (system used).words fd (config_on used).config.start_address
      ≡ (config_on zeros).config.words (config_on zeros).config.start_address
unfolding create_area
first_word fd = refl

opened_is_recovery_example :
    (true ≡ true)
    × ((fd : ℕ)
        → (system zeros).open_file path ≡ some fd
        → (config_on zeros).config.words (config_on zeros).config.g_epoch_pointer_addr
          ≡ (system zeros).words fd (config_on zeros).config.g_epoch_pointer_addr)
opened_is_recovery_example =
    opened_is_recovery (system zeros) (system used) path (config_on zeros) (config_on used) true
      nvmconfig-zeros is_recovery-used first_word
