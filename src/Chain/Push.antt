-- ===== src/Chain/Push.antt =====
-- An append puts one entry at the end of its log, touches no other log, keeps the invariant, and
-- succeeds while a block is free.
use escort.Prelude.{
  ℕ, ◌+◌, ◌<◌, ◌≡◌, ◌≢◌, refl, sym, ap, ◌∙◌, ◌≡⟨◌⟩◌, ◌∎, suc, ◌⊎◌, inl, inr, true, false, none,
  some, List, [], ◌∷◌, ◌++◌, length, ◌*◌, count, update, prefix-update, update_self, arith,
}
use mathlib.Core.List.{append-nil, append_assoc}
use escort.Chain.{Store, fetch, append_tail, push_back, items, items_of, contents, tail_room, room}
use escort.Chain.Valid.{Valid, items_of-update}

module _ {H E : Type 0} (cap : ℕ) (prepare : H → H) (k : ℕ) where
  -- The store with block `b` moved from the pool to the back of log `k`.
  abbrev fetched : ℕ → List ℕ → Store H E → Store H E
  fetched b rest st = record {
    free = rest;
    used = b ∷ st.used;
    block = update st.block b (record (st.block b) { header = prepare (st.block b).header });
    chain = update st.chain k (b ∷ st.chain k);
  }

  abbrev Fetches : Store H E → Type 0
  Fetches st =
      ((st.free ≡ []) × (fetch prepare k st ≡ none))
      ⊎ ((b : ℕ) × (rest : List ℕ) × (st.free ≡ b ∷ rest)
          × (fetch prepare k st ≡ some (fetched b rest st)))

  fetch_cases : (st : Store H E) → Fetches st
  unfolding fetch
  fetch_cases st = go st.free refl
    where
      go : (xs : List ℕ) → st.free ≡ xs → Fetches st
      go [] e = inl (e, ground arith)
      go (b ∷ rest) e = inr (b, rest, e, ground arith)

  module _ (st : Store H E) (b : ℕ) (rest : List ℕ) (v : Valid cap st)
      (e : st.free ≡ b ∷ rest) where
    fetched-free : (a : ℕ) → count a st.free ≡ count a (b ∷ rest)
    fetched-free a = ap (count a) e

    fetched-Valid : Valid cap (fetched b rest st)
    fetched-Valid = record {
      single = λ a. ground (arith, v.single a, fetched-free a);
      owned = λ j a. ground (arith, v.owned j a, v.owned k a);
      apart = λ i j a n.
          ground (arith, v.apart i j a, v.owned i a, v.owned j a, v.single a, fetched-free a);
      cleared = λ a h. ground (arith, v.cleared a, fetched-free a);
      bounded = λ a h. ground (arith, v.bounded a, v.cleared b, fetched-free b);
    }

    -- The new block is empty, and in no log before.
    fetched-contents : (j : ℕ) → contents j (fetched b rest st) ≡ contents j st
    fetched-contents j = ground (
      arith,
      fresh j,
      v.cleared b,
      fetched-free b,
      append-nil (items_of st.block (st.chain k)),
      items_of-update st.block b (record (st.block b) { header = prepare (st.block b).header })
          (st.chain j),
    )
      where
        fresh : (i : ℕ) → count b (st.chain i) ≡ 0
        fresh i = ground (arith, v.owned i b, v.single b, fetched-free b)

  -- The store with `e` in the next cell of block `b`.
  abbrev appended : ℕ → E → Store H E → Store H E
  appended b e st = record st {
    block = update st.block b (record (st.block b) {
      size = suc (st.block b).size;
      entries = update (st.block b).entries (st.block b).size e;
    });
  }

  module _ (st : Store H E) (b : ℕ) (rest : List ℕ) (v : Valid cap st)
      (c : st.chain k ≡ b ∷ rest) where
    chain-count : (a : ℕ) → count a (st.chain k) ≡ count a (b ∷ rest)
    chain-count a = ap (count a) c

    append_tail-full : (e : E) → (st.block b).size ≡ cap → append_tail cap k e st ≡ some (false, st)
    unfolding append_tail
    append_tail-full e full = ground (arith, update_self st.block b)

    append_tail-room :
        (e : E) → (st.block b).size < cap → append_tail cap k e st ≡ some (true, appended b e st)
    unfolding append_tail
    append_tail-room e room = ground arith

    appended-Valid : (e : E) → (st.block b).size < cap → Valid cap (appended b e st)
    appended-Valid e room = record {
      single = v.single;
      owned = v.owned;
      apart = v.apart;
      cleared = λ a h. ground (arith, v.cleared a, v.owned k b, v.single b, chain-count b);
      bounded = λ a h. ground (arith, v.bounded a);
    }

    in_bounds : ((st.block b).size < cap) ⊎ ((st.block b).size ≡ cap)
    in_bounds = ground (arith, chain-count b, v.owned k b, v.bounded b)

    fresh_in_rest : count b rest ≡ 0
    fresh_in_rest = omega (arith, chain-count b, v.owned k b, v.single b, here)
      where
        here : count b (b ∷ rest) ≡ suc (count b rest)
        here = ground arith

    frame :
        (e : E) (xs : List ℕ)
        → count b xs ≡ 0
        → items_of (appended b e st).block xs ≡ items_of st.block xs
    frame e xs = items_of-update st.block b _ xs

    -- The entry comes last in log `k`.
    appended-contents_self : (e : E) → contents k (appended b e st) ≡ contents k st ++ e ∷ []
    appended-contents_self e =
        contents k (appended b e st)
        ≡⟨ ap (items_of (appended b e st).block) c ⟩ items_of (appended b e st).block (b ∷ rest)
        ≡⟨ ground (
          arith,
          frame e rest fresh_in_rest,
          prefix-update (st.block b).size (st.block b).size (st.block b).entries e,
        ) ⟩
          items_of st.block rest ++ (items (st.block b) ++ e ∷ [])
        ≡⟨ sym (append_assoc (items_of st.block rest) (items (st.block b)) (e ∷ [])) ⟩
          items_of st.block (b ∷ rest) ++ e ∷ []
        ≡⟨ ap (λ xs. items_of st.block xs ++ e ∷ []) (sym c) ⟩ contents k st ++ e ∷ [] ∎

    appended-contents_ne : (e : E) (j : ℕ) → k ≢ j → contents j (appended b e st) ≡ contents j st
    appended-contents_ne e j n =
        frame e (st.chain j) (omega (arith, chain-count b, v.apart k j b n, here))
      where
        here : count b (b ∷ rest) ≡ suc (count b rest)
        here = ground arith

  -- What an append of `e` to log `k` does.
  pub record Pushed (e : E) (st st' : Store H E) : Type 0 where
    pub valid : Valid cap st'
    pub own : contents k st' ≡ contents k st ++ e ∷ []
    pub others : (j : ℕ) → k ≢ j → contents j st' ≡ contents j st
    pub lent : (b : ℕ) → count b st'.free + count b st'.used ≡ count b st.free + count b st.used
    pub filled : room cap k st ≡ suc (room cap k st')

  abbrev Appends : E → Store H E → Type 0
  Appends e st =
      ((room cap k st ≡ 0) × (push_back cap prepare k e st ≡ none))
      ⊎ ((st' : Store H E) × (push_back cap prepare k e st ≡ some st') × Pushed e st st')

  module _ (st : Store H E) (b : ℕ) (rest : List ℕ) (v : Valid cap st) (e : E) where
    room-Pushed : st.chain k ≡ b ∷ rest → (st.block b).size < cap → Pushed e st (appended b e st)
    room-Pushed c room = record {
      valid = appended-Valid st b rest v c e room;
      own = appended-contents_self st b rest v c e;
      others = appended-contents_ne st b rest v c e;
      lent = λ a. refl;
      filled =
          ground
            (arith, ap (tail_room cap st.block) c, ap (tail_room cap (appended b e st).block) c);
    }

    -- A block fresh from the pool takes the entry.
    module _ (f : st.free ≡ b ∷ rest) (pos : 0 < cap) where
      new_block : Store H E
      new_block = fetched b rest st

      new_store : new_block ≡ fetched b rest st
      unfolding new_block
      new_store = refl

      new-Valid : Valid cap new_block
      unfolding new_block
      new-Valid = fetched-Valid st b rest v f

      new_chain : new_block.chain k ≡ b ∷ st.chain k
      unfolding new_block
      new_chain = ground arith

      new_room : (new_block.block b).size < cap
      unfolding new_block
      new_room = ground (arith, v.cleared b, fetched-free st b rest v f b)

      new_append : append_tail cap k e new_block ≡ some (true, appended b e new_block)
      new_append = append_tail-room new_block b (st.chain k) new-Valid new_chain e new_room

      new-Pushed : tail_room cap st.block (st.chain k) ≡ 0 → Pushed e st (appended b e new_block)
      unfolding new_block
      new-Pushed full = record {
        valid = appended-Valid new_block b (st.chain k) new-Valid new_chain e new_room;
        own =
            appended-contents_self new_block b (st.chain k) new-Valid new_chain e
            ∙ ap (λ xs. xs ++ e ∷ []) (fetched-contents st b rest v f k);
        others = λ j n.
            appended-contents_ne new_block b (st.chain k) new-Valid new_chain e j n
            ∙ fetched-contents st b rest v f j;
        lent = λ a. ground (arith, fetched-free st b rest v f a);
        filled = ground (
          arith,
          ap (λ xs. length xs * cap) f,
          new_room,
          v.cleared b,
          fetched-free st b rest v f b,
        );
      }

  module _ (st : Store H E) (e : E) (v : Valid cap st) (pos : 0 < cap) where
    first_append : st.chain k ≡ [] → Fetches st → Appends e st
    unfolding push_back
    first_append c (inl (f, failed)) =
        inl (
          ground (arith, ap (λ xs. length xs * cap) f, ap (tail_room cap st.block) c),
          ground arith,
        )
    first_append c (inr (b, rest, f, got)) = inr (
      appended b e (new_block st b rest v e f pos),
      ground (arith, new_append st b rest v e f pos, new_store st b rest v e f pos),
      new-Pushed st b rest v e f pos (ground (arith, ap (tail_room cap st.block) c)),
    )

    later_append :
        (b : ℕ) (rest : List ℕ)
        → st.chain k ≡ b ∷ rest
        → ((st.block b).size < cap) ⊎ ((st.block b).size ≡ cap)
        → Fetches st
        → Appends e st
    unfolding push_back
    later_append b rest c (inl space) _ = inr (
      appended b e st,
      ground (arith, append_tail-room st b rest v c e space),
      room-Pushed st b rest v e c space,
    )
    later_append b rest c (inr full) (inl (f, failed)) = inl (
      ground (arith, ap (λ xs. length xs * cap) f, ap (tail_room cap st.block) c),
      ground (arith, append_tail-full st b rest v c e full),
    )
    later_append b rest c (inr full) (inr (b', rest', f, got)) = inr (
      appended b' e (new_block st b' rest' v e f pos),
      ground (
        arith,
        append_tail-full st b rest v c e full,
        new_append st b' rest' v e f pos,
        new_store st b' rest' v e f pos,
      ),
      new-Pushed st b' rest' v e f pos (ground (arith, ap (tail_room cap st.block) c)),
    )

  -- An append fails exactly where its log has no room left. Otherwise it puts the entry last in its
  -- log, uses up one place, and leaves the other logs as they were.
  pub push_back_cases : (st : Store H E) (e : E) → Valid cap st → 0 < cap → Appends e st
  push_back_cases st e v pos = split (st.chain k) refl
    where
      split : (xs : List ℕ) → st.chain k ≡ xs → Appends e st
      split [] c = first_append st e v pos c (fetch_cases st)
      split (b ∷ rest) c =
          later_append st e v pos b rest c (in_bounds st b rest v c) (fetch_cases st)
