-- ===== src/Registration.antt =====
-- How user threads register beside the rounds of the checkpointing thread: `escort_thread_init` and
-- `escort_thread_finalize` of src/Escort.cpp with `init_userthreadctx`, `finalize_userthreadctx` and the
-- execute right of src/checkpointing.hpp and src/checkpointing.cpp, a shared access at a time.
pub mod Exclusion
use escort.Prelude.{
  ℕ, ◌+◌, ◌-◌, ◌%◌, ◌^◌, ◌≡◌, Bool, true, false, List, [], ◌∷◌, ◌++◌, ◌==◌, if◌then◌else◌, update,
}
use escort.Master.{init_userthreadctx}

-- The two calls that take the execute right.
pub data Call : Type 0 where
  init_call : Call
  finalize_call : Call

-- Where a user thread stands: outside, counted in `_num_wait_threads`, with the execute right before and
-- after the change of the lists, or no longer counted and about to give the right back.
pub data Pc : Type 0 where
  outside : Pc
  counted : (c : Call) → Pc
  granted : (c : Call) → Pc
  entered : (c : Call) → Pc
  uncounted : Pc

-- The checkpointing thread: before the loop that takes the right, in a round, or after it.
pub data MasterPc : Type 0 where
  wants_right : MasterPc
  in_round : MasterPc
  sleeping : MasterPc

pub record Registry : Type 0 where
  pub has_execute_right : Bool
  pub num_wait_threads : ℕ
  pub ctx_array : List ℕ
  pub ctx_delete_array : ℕ → List ℕ
  -- `lv::ctx` of a thread is not null
  pub has_ctx : ℕ → Bool
  pub pc : ℕ → Pc
  pub master : MasterPc
  pub global_epoch : ℕ

abbrev pub at : Registry → ℕ → Pc → Registry
at s i p = record s { pc = update s.pc i p }

-- `has_execute_right` where its `compare_exchange_weak` succeeds, which asks for `false`; one that fails
-- changes nothing.
abbrev pub take_execute_right : Registry → Registry
take_execute_right s = record s { has_execute_right = true }

abbrev pub release_execute_right : Registry → Registry
release_execute_right s = record s { has_execute_right = false }

-- `static_cast<uint32_t>((epoch-2) % 4)`
abbrev pub delete_id : ℕ → ℕ
delete_id e = (e + 2 ^ 64 - 2) % 2 ^ 64 % 4

-- The body of the two calls, with the right.
abbrev pub enter_lists : Call → ℕ → Registry → Registry
enter_lists init_call i s = record s { ctx_array = init_userthreadctx i s.ctx_array }
enter_lists finalize_call i s = record s {
  ctx_delete_array =
      update s.ctx_delete_array (delete_id s.global_epoch)
        (s.ctx_delete_array (delete_id s.global_epoch) ++ i ∷ []);
}

pub data Step (s : Registry) : Registry → Type 0 where
  -- The assertion of `escort_thread_init`, the new context, and `fetch_add`.
  thread_init :
      (i : ℕ)
      → s.pc i ≡ outside
      → s.has_ctx i ≡ false
      → Step s (record s {
        has_ctx = update s.has_ctx i true;
        num_wait_threads = (s.num_wait_threads + 1) % 2 ^ 32;
        pc = update s.pc i (counted init_call);
      })
  thread_finalize :
      (i : ℕ)
      → s.pc i ≡ outside
      → s.has_ctx i ≡ true
      → Step s (record s {
        num_wait_threads = (s.num_wait_threads + 1) % 2 ^ 32;
        pc = update s.pc i (counted finalize_call);
      })
  take_right :
      (i : ℕ) (c : Call)
      → s.pc i ≡ counted c
      → s.has_execute_right ≡ false
      → Step s (at (take_execute_right s) i (granted c))
  enter : (i : ℕ) (c : Call) → s.pc i ≡ granted c → Step s (at (enter_lists c i s) i (entered c))
  uncount :
      (i : ℕ) (c : Call)
      → s.pc i ≡ entered c
      → Step s (record s {
        num_wait_threads = (s.num_wait_threads + 2 ^ 32 - 1) % 2 ^ 32;
        pc = update s.pc i uncounted;
      })
  release : (i : ℕ) → s.pc i ≡ uncounted → Step s (at (release_execute_right s) i outside)
  -- The loop of `checkpointing`.
  begin_round :
      s.master ≡ wants_right
      → s.has_execute_right ≡ false
      → Step s (record (take_execute_right s) { master = in_round })
  set_epoch : (e : ℕ) → s.master ≡ in_round → Step s (record s { global_epoch = e })
  end_round : s.master ≡ in_round → Step s (record (release_execute_right s) { master = sleeping })
  go_on : s.master ≡ sleeping → s.num_wait_threads ≡ 0 → Step s (record s { master = wants_right })

-- The constructor of `cpmaster_t`, with a thread that runs `checkpointing`.
abbrev pub new_registry : ℕ → Registry
new_registry e = record {
  has_execute_right = false;
  num_wait_threads = 0;
  ctx_array = [];
  ctx_delete_array = λ _. [];
  has_ctx = λ _. false;
  pc = λ _. outside;
  master = wants_right;
  global_epoch = e;
}

pub data Reach : Registry → Type 0 where
  start : (e : ℕ) → Reach (new_registry e)
  later : {s t : Registry} → Reach s → Step s t → Reach t
