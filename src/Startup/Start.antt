-- ===== src/Startup/Start.antt =====
-- The system starts with both heaps equal, nothing marked and nothing logged.
use escort.Prelude.{
  ℕ, ◌+◌, ◌-◌, ◌*◌, ◌≤◌, ◌<◌, ◌≡◌, refl, ap, sym, ◌∙◌, subst, Bool, false, some, [], arith,
}
use escort.Address.{cache_line_size, dram_base, num_lines, line_addr}
use escort.Bitmap
use escort.Bitmap.{Bitmap, is_set}
use escort.Chain
use escort.Chain.{Block}
use escort.Chain.Valid.{Valid}
use escort.Epoch.{EpochPhase, epoch}
use escort.Plog
use escort.Plog.{Plogs, Entry, log_block_num}
use escort.Plog.Management.{management-Valid}
use escort.Allocator.{Jemalloc}
use escort.NvmConfig.{create_area}
use escort.RedoLog.Plogs.{plogs}
use escort.Snapshot.{nvm_addr}
use escort.Recovery
use escort.Durability.{IsInitial}
use escort.Startup.{Process, offset_of, global_epoch, first_execution, escort_init, plog_blocks}
use escort.Startup.Steps.{Opened, managed, restored}
use escort.Startup.Lines.{line_from, line_from-agrees}
use escort.Startup.Init.{run_of, bitmap_of, after, escort_init-first}

management_empty :
    (m : ℕ) (area : ℕ → Block (Unit {0}) Entry) (k : ℕ)
    → Chain.contents k (Plog.management m area) ≡ []
unfolding Plog.management
management_empty m area k = refl

-- What `run_of` reads of a process.
record Starts {H : Type 0} (offset : ℕ) (t : Process H) : Type 0 where
  pub clear_bits : t.bitmap ≡ some (λ _. Bitmap.new num_lines)
  pub area : ℕ → Block (Unit {0}) Entry
  pub new_logs : t.plogs ≡ Plog.management plog_blocks area
  pub started : 2 ≤ epoch (global_epoch t.config)
  pub lines :
      (l : ℕ)
      → l < num_lines
      → t.nvm (nvm_addr offset l)
        ≡ line_from cache_line_size (λ j. t.dram (l * cache_line_size + j))

place : (l j : ℕ) → l * cache_line_size + j ≡ line_addr l - dram_base + j
place l j = omega arith

run_of-IsInitial :
    {H : Type 0} (offset n : ℕ) (t : Process H)
    → Starts offset t
    → IsInitial plogs offset n (run_of t)
run_of-IsInitial offset n t v = record {
  protocol_starts = refl;
  epoch_started = v.started;
  logs_valid = subst (Valid log_block_num) (sym v.new_logs) (management-Valid plog_blocks v.area);
  logs_empty = λ k.
      subst (λ x. Chain.contents k x ≡ []) (sym v.new_logs) (management_empty plog_blocks v.area k);
  unmarked = λ c l. ap (λ b. is_set (bitmap_of b c) l) v.clear_bits;
  heaps_agree =
      λ l b. v.lines l b ∙ line_from-agrees cache_line_size _ _ (λ j q. ap t.dram (place l j));
  all_free = λ i. refl;
  rests = refl;
}

module _ (J : Jemalloc) (start nvm_size : ℕ) (words : ℕ → ℕ) (may_write : ℕ → Bool) (num : ℕ) where
  open J use {Heap}

  abbrev resumed : EpochPhase → Process Heap → Process Heap
  resumed phase s =
      after J start nvm_size words num (restored J start nvm_size words may_write phase s)

  abbrev begun : Process Heap → Process Heap
  begun s = after J start nvm_size words num (first_execution J (managed start nvm_size words s))

  first_word :
      (s : Process Heap) → Opened start nvm_size words s → global_epoch (begun s).config ≡ 2
  unfolding create_area
  first_word s o = ground (
    arith,
    ap (λ c. c.g_epoch_pointer_addr) o.config,
    ap (λ c. c.root_pointer_addr) o.config,
    ap (λ c. c.persist_num_addr) o.config,
  )

  -- A first start, in a process that has only opened a file, with a DRAM of zeros and a heap of zeros in
  -- NVM: `escort_init` returns, the word of the epoch is 2, and a system starts with equal heaps, no marks
  -- and empty logs.
  pub escort_init_starts :
      (n : ℕ) (s : Process Heap)
      → Opened start nvm_size words s
      → ((i : ℕ) → s.dram i ≡ 0)
      → ((l : ℕ) → l < num_lines → s.nvm (nvm_addr (offset_of s.config) l) ≡ 0)
      → (t : Process Heap) × (escort_init J may_write num false s ≡ some t)
        × (global_epoch t.config ≡ 2)
        × IsInitial plogs (offset_of t.config) n (run_of t)
  unfolding epoch
  escort_init_starts n s o z empty = (
    begun s,
    escort_init-first J start nvm_size words may_write num s o,
    first_word s o,
    run_of-IsInitial (offset_of (begun s).config) n (begun s) (record {
      clear_bits = refl;
      area = s.plogs.block;
      new_logs = refl;
      started = subst (λ e. 2 ≤ epoch e) (sym (first_word s o)) (omega arith);
      lines = λ l b.
          empty l b
          ∙ sym (
              line_from-agrees cache_line_size (λ j. s.dram (l * cache_line_size + j)) (λ _. 0)
                (λ j q. z (l * cache_line_size + j)));
    }),
  )
