-- ===== src/Tests/Starting.antt =====
-- The library is started on a new file, and again on the file that a system with one thread leaves when
-- it crashes in the wait of epoch 3.
use escort.Prelude.{if◌then◌else◌, ℕ, ◌+◌, ◌-◌, ◌^◌, refl, none, List, [], ◌==◌, arith}
use escort.Address.{dram_base, heap_size, line_addr}
use escort.Allocatorlog
use escort.NvmConfig.{create_area}
use escort.Plog.{management, Memory}
use escort.RedoLog.Plogs.{plogs}
use escort.Startup.{Process}
use escort.Startup.Steps.{Opened}
use escort.Tests.Allocation
use escort.Tests.Heap

-- The heap in NVM is then 2^40 bytes behind that in DRAM.
abbrev pub start : ℕ
start = dram_base + 2 ^ 40 - 64

abbrev pub nvm_size : ℕ
nvm_size = 2 ^ 34

abbrev words : ℕ → ℕ
words a = if a == start + 16 then 2 ^ 63 + 3 else 0

abbrev pub opened : (ℕ → ℕ) → Memory → Process (ℕ × List ℕ)
opened file nvm = record {
  config = create_area start nvm_size heap_size file;
  bitmap = none;
  bytemap = λ _. λ _. 0;
  bytemap_nvm = λ _. 0;
  plogs = management 3 Heap.area;
  allocator_logs = Allocatorlog.management 2 Allocation.area;
  nvm = nvm;
  dram = λ _. 0;
  heap = (line_addr 100, []);
  root_table = 0;
  cp_master = none;
}

pub opened-Opened : (file : ℕ → ℕ) (nvm : Memory) → Opened start nvm_size file (opened file nvm)
unfolding create_area
opened-Opened file nvm = record {
  config = refl;
  no_bitmap = refl;
  no_master = refl;
  room = omega arith;
}
