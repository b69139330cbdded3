-- ===== src/Allocator/Net.antt =====
-- The byte of a block tells whether it was allocated or freed an odd number of times in the epoch,
-- and every odd time adds an entry to the log.
use escort.Prelude.{
  ℕ, zero, suc, ◌+◌, ◌/◌, ◌%◌, ◌≤◌, ◌<◌, ◌≡◌, refl, ap, inl, inr, Bool, true, Option, some, List,
  [], ◌∷◌, ◌++◌, length, length-append, ◌==◌, if◌then◌else◌, Bool-cases, ◌>>=◌, arith,
}
use escort.Address.{get_index}
use escort.Epoch.{epoch}
use escort.Chain.{contents, room}
use escort.Chain.Valid.{Valid}
use escort.Chain.Push.{Pushed, push_back_cases}
use escort.Allocatorlog
use escort.Allocatorlog.{Allocatorlogs, AllocEntry, allocator_log_block_num, log_of}
use escort.Bytemap
use escort.World.{put}
use escort.Allocator.{Jemalloc, AllocWorld, toggle}

abbrev new_entry : ℕ → ℕ → AllocEntry
new_entry addr size = record { addr = addr; size = size; is_valid = true }

append_total :
    (k addr size e : ℕ) (st : Allocatorlogs)
    → Valid allocator_log_block_num st
    → 0 < room allocator_log_block_num k st
    → (st' : Allocatorlogs) × (Allocatorlog.append k addr size e st ≡ some st')
      × Pushed allocator_log_block_num (λ _. e) k (new_entry addr size) st st'
unfolding Allocatorlog.append
append_total k addr size e st v h =
    elim (push_back_cases allocator_log_block_num (λ _. e) k st (new_entry addr size) v
      (omega arith)) [ inl (full, failed) ↦ absurd (omega arith) | inr found ↦ found ]

module _ (J : Jemalloc) (i : ℕ) (curr : Bool) (e addr size index : ℕ)
    (here : get_index addr ≡ some index) where
  open J use {Heap}

  abbrev byte : AllocWorld Heap → ℕ
  byte w = w.bytemap curr index

  abbrev log_entries : AllocWorld Heap → List AllocEntry
  log_entries w = contents (log_of i curr) w.logs

  abbrev space : AllocWorld Heap → ℕ
  space w = room allocator_log_block_num (log_of i curr) w.logs

  record Toggled (w w' : AllocWorld Heap) : Type 0 where
    valid : Valid allocator_log_block_num w'.logs
    new_byte : byte w' ≡ (if byte w == 1 then 255 else 1)
    entries :
        log_entries w'
        ≡ (if byte w == 1 then log_entries w else log_entries w ++ new_entry addr size ∷ [])
    left : space w ≤ suc (space w')

  toggle-Toggled :
      (w : AllocWorld Heap)
      → Valid allocator_log_block_num w.logs
      → 0 < space w
      → (w' : AllocWorld Heap) × (toggle J i curr e addr size w ≡ some w') × Toggled w w'
  unfolding toggle
  toggle-Toggled w v h = elim (Bool-cases (byte w == 1)) [
    | inl odd ↦ (
      record w { bytemap = put curr (Bytemap.reverse index (w.bytemap curr)) w.bytemap },
      ground (arith, Bool-cases curr),
      record {
        valid = v;
        new_byte = ground (arith, Bool-cases curr);
        entries = ground arith;
        left = omega arith;
      },
    )
    | inr even ↦
        let (logs', got, p) = append_total (log_of i curr) addr size (epoch e) w.logs v h in
        (
          record w {
            bytemap = put curr (Bytemap.set index (w.bytemap curr)) w.bytemap;
            logs = logs';
          },
          ground (arith, Bool-cases curr),
          record {
            valid = p.valid;
            new_byte = ground (arith, Bool-cases curr);
            entries = ground (arith, p.own);
            left = omega (arith, p.filled);
          },
        )
  ]

  -- The same block allocated and freed, or freed and allocated, `n` times in the epoch.
  pub toggles : ℕ → AllocWorld Heap → Option (AllocWorld Heap)
  toggles zero w = some w
  toggles (suc n) w = toggles n w >>= λ u. toggle J i curr e addr size u

  pub record Net (n : ℕ) (w w' : AllocWorld Heap) : Type 0 where
    pub still_valid : Valid allocator_log_block_num w'.logs
    pub net_byte : byte w' ≡ (if n == 0 then 0 else (if n % 2 == 1 then 1 else 255))
    pub logged : length (log_entries w') ≡ length (log_entries w) + (n + 1) / 2
    pub room_left : space w ≤ space w' + n

  -- Where no byte is set and the log has room, `n` allocations and deallocations of one block in an
  -- epoch succeed. They leave the byte 1 if `n` is odd, -1 (the pattern 255) if it is even and not 0,
  -- and have added an entry for each odd one of them: more than one entry from the third on.
  pub toggles-Net :
      (n : ℕ) (w : AllocWorld Heap)
      → Valid allocator_log_block_num w.logs
      → byte w ≡ 0
      → n ≤ space w
      → (w' : AllocWorld Heap) × (toggles n w ≡ some w') × Net n w w'
  unfolding toggles
  toggles-Net zero w v zero_byte h = (
    w,
    refl,
    record { still_valid = v; net_byte = zero_byte; logged = omega arith; room_left = omega arith },
  )
  toggles-Net (suc n) w v zero_byte h =
      let (w₁, e₁, r₁) = toggles-Net n w v zero_byte (omega arith) in
      let (w₂, e₂, r₂) = toggle-Toggled w₁ r₁.still_valid (omega (arith, r₁.room_left)) in
      (
        w₂,
        rw e₁ e₂,
        record {
          still_valid = r₂.valid;
          net_byte = ground (arith, r₁.net_byte, r₂.new_byte);
          logged = ground (
            arith,
            r₁.net_byte,
            r₁.logged,
            ap length r₂.entries,
            length-append (log_entries w₁) (new_entry addr size ∷ []),
          );
          room_left = omega (arith, r₁.room_left, r₂.left);
        },
      )
