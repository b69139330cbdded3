-- ===== src/Tests/Restart.antt =====
-- A redo log of two blocks, of which a crash leaves block 1 replayed and one entry of block 0.
use escort.Prelude.{◌+◌, ◌*◌, ◌^◌, ◌≡◌, [], ◌∷◌, arith}
use escort.Address.{line_addr}
use escort.Plog.{Plogs, replay_block}
use escort.Recovery.{replay_all}
use escort.Recovery.Resume.{replay_all_resumes}

abbrev two_blocks : Plogs
two_blocks = record {
  free = 0 ∷ 1 ∷ [];
  used = [];
  block = λ b. record {
    header = tt;
    size = 2;
    entries = λ j. record { addr = line_addr (b + j); val = 10 * b + j };
  };
  chain = λ k. [];
}

replay_all_resumes_example :
    replay_all (2 ^ 40) (0 ∷ 1 ∷ []) (replay_all (2 ^ 40) (1 ∷ []) two_blocks (λ a. 0)).0 (
      replay_block
        (2 ^ 40)
        ((replay_all (2 ^ 40) (1 ∷ []) two_blocks (λ a. 0)).0.block 0)
        1
        (replay_all (2 ^ 40) (1 ∷ []) two_blocks (λ a. 0)).1)
    ≡ replay_all (2 ^ 40) (0 ∷ 1 ∷ []) two_blocks (λ a. 0)
unfolding replay_all
replay_all_resumes_example =
    replay_all_resumes (2 ^ 40) [] (1 ∷ []) 0 1 two_blocks (λ a. 0) (omega arith)
