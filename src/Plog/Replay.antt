-- ===== src/Plog/Replay.antt =====
-- The replay of a log writes its entries in the order in which they were appended.
use escort.Prelude.{ℕ, zero, suc, ◌≡◌, refl, ap, ◌∙◌, List, [], ◌∷◌, ◌++◌, prefix, update}
use escort.Address.{add_addr}
use escort.Chain.{Block, items, items_of, contents}
use escort.Plog.{Plogs, Memory, Entry, replay_block, replay_blocks, replay_redo_log}

-- One write for each entry, oldest first.
abbrev pub apply : ℕ → List Entry → Memory → Memory
apply offset [] nvm = nvm
apply offset (e ∷ es) nvm = apply offset es (update nvm (add_addr e.addr offset) e.val)

pub apply-append :
    (offset : ℕ) (xs ys : List Entry) (nvm : Memory)
    → apply offset (xs ++ ys) nvm ≡ apply offset ys (apply offset xs nvm)
apply-append offset [] ys nvm = refl
apply-append offset (e ∷ es) ys nvm = apply-append offset es ys _

replay_block-eq-apply :
    (offset : ℕ) (blk : Block (Unit {0}) Entry) (n : ℕ) (nvm : Memory)
    → replay_block offset blk n nvm ≡ apply offset (prefix n blk.entries) nvm
unfolding replay_block
replay_block-eq-apply offset blk zero nvm = refl
replay_block-eq-apply offset blk (suc n) nvm =
    rw (apply-append offset (prefix n blk.entries) (blk.entries n ∷ []) nvm) (
      ap (λ m. update m (add_addr (blk.entries n).addr offset) (blk.entries n).val)
        (replay_block-eq-apply offset blk n nvm))

replay_blocks-eq-apply :
    (offset : ℕ) (block : ℕ → Block (Unit {0}) Entry) (xs : List ℕ) (nvm : Memory)
    → replay_blocks offset block xs nvm ≡ apply offset (items_of block xs) nvm
unfolding replay_blocks
replay_blocks-eq-apply offset block [] nvm = refl
replay_blocks-eq-apply offset block (b ∷ rest) nvm =
    rw (apply-append offset (items_of block rest) (items (block b)) nvm) (
      replay_block-eq-apply offset (block b) (block b).size _
      ∙ ap (apply offset (items (block b))) (replay_blocks-eq-apply offset block rest nvm))

-- The loops of `replay_redo_log` over blocks and entries write the contents of the log, oldest entry
-- first.
pub replay_redo_log-eq-apply :
    (offset k : ℕ) (st : Plogs) (nvm : Memory)
    → replay_redo_log offset k st nvm ≡ apply offset (contents k st) nvm
unfolding replay_redo_log
replay_redo_log-eq-apply offset k st nvm = replay_blocks-eq-apply offset st.block (st.chain k) nvm
