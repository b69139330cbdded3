-- ===== src/Durability/Listed.antt =====
-- Every marked line is on the list of a thread, or in the region that a thread is marking.
use escort.Prelude.{
  ℕ, ◌+◌, ◌≤◌, ◌<◌, ◌≡◌, ◌≢◌, sym, ap, ◌∙◌, subst, inl, inr, ◌⊎◌, Bool, true, not, [], ◌==◌, update,
  count, Bool-cases, ==_iff, arith,
}
use escort.Bitmap.{Bitmap, is_set}
use escort.Addrlist.{Addrlist}
use escort.World.{curr_of}
use escort.Snapshot.Visits.{lines}
use escort.EpochProtocol.{Pc, inside}
use escort.Durability.{Activity, free, marking}

-- The line is on the list of a thread for the epochs of parity `c`.
abbrev pub OnList : ℕ → Bool → (ℕ → Bool → Addrlist) → ℕ → Type 0
OnList n c list l = (i : ℕ) × (i < n) × (0 < count l (lines (list i c) []))

-- Thread `i` has gone past the line in a region that it will append to its list.
pub record InRegion (c : Bool) (pc : ℕ → Pc) (activity : ℕ → Activity) (l i : ℕ) : Type 0 where
  pub e : ℕ
  pub first : ℕ
  pub num_bits : ℕ
  pub done : ℕ
  pub is_inside : pc i ≡ inside e
  pub parity : curr_of e ≡ c
  pub marks : activity i ≡ marking first num_bits done true
  pub low : first ≤ l
  pub high : l < first + done
  pub fits : done ≤ num_bits

abbrev pub Listed :
    ℕ → Bool → (Bool → Bitmap) → (ℕ → Bool → Addrlist) → (ℕ → Pc) → (ℕ → Activity) → Type 0
Listed n c bitmap list pc activity =
    (l : ℕ)
    → is_set (bitmap c) l ≡ true
    → OnList n c list l ⊎ ((i : ℕ) × (i < n) × InRegion c pc activity l i)

free_ne_marking : {first num_bits done : ℕ} {flag : Bool} → free ≢ marking first num_bits done flag
free_ne_marking h = cc

pub same_or_not : (a b : Bool) → (a ≡ b) ⊎ (a ≡ not b)
same_or_not a b = ground (arith, Bool-cases a, Bool-cases b)

module _ (n : ℕ) (c : Bool) where
  -- Fewer bits, and threads that are marking stay where they are.
  pub Listed-protocol :
      (bitmap bitmap' : Bool → Bitmap) (list list' : ℕ → Bool → Addrlist) (pc pc' : ℕ → Pc)
      (activity : ℕ → Activity)
      → ((l : ℕ) → is_set (bitmap' c) l ≡ true → is_set (bitmap c) l ≡ true)
      → ((i : ℕ) → list' i c ≡ list i c)
      → ((i : ℕ) → (pc' i ≡ pc i) ⊎ (activity i ≡ free))
      → Listed n c bitmap list pc activity
      → Listed n c bitmap' list' pc' activity
  Listed-protocol bitmap bitmap' list list' pc pc' activity bits lists stays h l b =
      elim (h l (bits l b)) [
        | inl (i, r, m) ↦ inl (i, r, subst (λ xs. 0 < count l (lines xs [])) (sym (lists i)) m)
        | inr (i, r, g) ↦ inr (
          i,
          r,
          record {
            e = g.e;
            first = g.first;
            num_bits = g.num_bits;
            done = g.done;
            is_inside = elim (stays i) [
              | inl same ↦ same ∙ g.is_inside
              | inr idle ↦ absurd (free_ne_marking (sym idle ∙ g.marks))
            ];
            parity = g.parity;
            marks = g.marks;
            low = g.low;
            high = g.high;
            fits = g.fits;
          },
        )
      ]

  -- A thread that was free begins to mark.
  pub Listed-begin_mark :
      (bitmap : Bool → Bitmap) (list : ℕ → Bool → Addrlist) (pc : ℕ → Pc) (activity : ℕ → Activity)
      (i : ℕ) (a : Activity)
      → activity i ≡ free
      → Listed n c bitmap list pc activity
      → Listed n c bitmap list pc (update activity i a)
  Listed-begin_mark bitmap list pc activity i a idle h l b = elim (h l b) [
    | inl m ↦ inl m
    | inr (j, r, g) ↦ inr (
      j,
      r,
      record {
        e = g.e;
        first = g.first;
        num_bits = g.num_bits;
        done = g.done;
        is_inside = g.is_inside;
        parity = g.parity;
        marks = elim (Bool-cases (i == j)) [
          | inl same ↦
              absurd (free_ne_marking (sym idle ∙ ap activity ((==_iff i j).0 same) ∙ g.marks))
          | inr different ↦ ground (arith, g.marks)
        ];
        low = g.low;
        high = g.high;
        fits = g.fits;
      },
    )
  ]
