-- ===== src/Durability/Regions.antt =====
-- What the loop of `mark` and its end do to marked lines and lists.
use escort.Prelude.{
  ℕ, suc, ◌+◌, ◌<◌, ◌≡◌, sym, ap, ◌∙◌, subst, inl, inr, ◌⊎◌, Bool, true, false, not, ◌||◌, [], ◌∷◌,
  ◌++◌, ◌==◌, if◌then◌else◌, update, count, Bool-cases, ==_iff, arith,
}
use escort.Address.{line_addr}
use escort.Bitmap.{Bitmap, is_set}
use escort.Addrlist.{Addrlist, Region}
use escort.World.{put, curr_of}
use escort.Snapshot.Visits.{lines}
use escort.EpochProtocol.{Pc, inside}
use escort.Durability.{Activity, free, marking}
use escort.Durability.Lines.{count-lines-append, region_member}
use escort.Durability.Listed.{OnList, InRegion, Listed, same_or_not}

module _ (n : ℕ) (c : Bool) where
  InRegion-mark :
      (pc : ℕ → Pc) (activity : ℕ → Activity) (i first num_bits done : ℕ) (flag has_set : Bool)
      (l j : ℕ)
      → activity i ≡ marking first num_bits done flag
      → done < num_bits
      → InRegion c pc activity l j
      → InRegion c pc (update activity i (marking first num_bits (suc done) (flag || has_set))) l j
  InRegion-mark pc activity i first num_bits done flag has_set l j a more g =
      elim (Bool-cases (i == j)) [
        | inl same ↦
            let agree : marking first num_bits done flag ≡ marking g.first g.num_bits g.done true =
              sym a ∙ ap activity ((==_iff i j).0 same) ∙ g.marks in
            record {
              e = g.e;
              first = first;
              num_bits = num_bits;
              done = suc done;
              is_inside = g.is_inside;
              parity = g.parity;
              marks = ground (arith, agree);
              low = ground (arith, agree, g.low);
              high = ground (arith, agree, g.high);
              fits = omega (arith, more);
            }
        | inr different ↦ record {
          e = g.e;
          first = g.first;
          num_bits = g.num_bits;
          done = g.done;
          is_inside = g.is_inside;
          parity = g.parity;
          marks = ground (arith, g.marks);
          low = g.low;
          high = g.high;
          fits = g.fits;
        }
      ]

  pub Listed-mark :
      (bitmap bitmap' : Bool → Bitmap) (list : ℕ → Bool → Addrlist) (pc : ℕ → Pc)
      (activity : ℕ → Activity) (i e first num_bits done : ℕ) (flag has_set : Bool)
      → i < n
      → pc i ≡ inside e
      → activity i ≡ marking first num_bits done flag
      → done < num_bits
      → (curr_of e ≡ c
          → (x : ℕ)
          → is_set (bitmap' c) x ≡ (if first + done == x then true else is_set (bitmap c) x))
      → (curr_of e ≡ c → (is_set (bitmap c) (first + done) ≡ true) ⊎ (has_set ≡ true))
      → (curr_of e ≡ not c → (x : ℕ) → is_set (bitmap' c) x ≡ true → is_set (bitmap c) x ≡ true)
      → Listed n c bitmap list pc activity
      → Listed n c bitmap' list pc
          (update activity i (marking first num_bits (suc done) (flag || has_set)))
  Listed-mark bitmap bitmap' list pc activity i e first num_bits done flag has_set r p a more own
        was other h l b =
      elim (same_or_not (curr_of e) c) [
        | inr others ↦ moved (h l (other others l b))
        | inl ours ↦ elim (Bool-cases (first + done == l)) [
          | inr elsewhere ↦ moved (h l (ground (arith, own ours l)))
          | inl here ↦ elim (was ours) [
            | inl old ↦ moved (
                h l
                  (subst (λ x. is_set (bitmap c) x ≡ true) ((==_iff (first + done) l).0 here) old))
            | inr set ↦ inr (
              i,
              r,
              record {
                e = e;
                first = first;
                num_bits = num_bits;
                done = suc done;
                is_inside = p;
                parity = ours;
                marks = ground (arith, set, Bool-cases flag);
                low = ground (arith, ==_iff (first + done) l);
                high = ground (arith, ==_iff (first + done) l);
                fits = omega (arith, more);
              },
            )
          ]
        ]
      ]
    where
      moved :
          OnList n c list l ⊎ ((j : ℕ) × (j < n) × InRegion c pc activity l j)
          → OnList n c list l
            ⊎ ((j : ℕ) × (j < n)
                × InRegion c pc
                    (update activity i (marking first num_bits (suc done) (flag || has_set)))
                    l
                    j)
      moved (inl m) = inl m
      moved (inr (j, q, g)) =
          inr (j, q, InRegion-mark pc activity i first num_bits done flag has_set l j a more g)

  pub Listed-end_mark :
      (bitmap : Bool → Bitmap) (list : ℕ → Bool → Addrlist) (pc : ℕ → Pc) (activity : ℕ → Activity)
      (i e first num_bits : ℕ) (flag : Bool)
      → i < n
      → pc i ≡ inside e
      → activity i ≡ marking first num_bits num_bits flag
      → Listed n c bitmap list pc activity
      → Listed n c bitmap
          (if flag
            then update list i
                (put (curr_of e) (list i (curr_of e) ++ (line_addr first, num_bits) ∷ []) (list i))
            else list)
          pc
          (update activity i free)
  Listed-end_mark bitmap list pc activity i e first num_bits flag r p a h l b = elim (h l b) [
    | inl (j, q, m) ↦ inl (j, q, grown flag j m)
    | inr (j, q, g) ↦ elim (Bool-cases (i == j)) [
      | inl same ↦ inl (i, r, gained j g ((==_iff i j).0 same))
      | inr different ↦ inr (
        j,
        q,
        record {
          e = g.e;
          first = g.first;
          num_bits = g.num_bits;
          done = g.done;
          is_inside = g.is_inside;
          parity = g.parity;
          marks = ground (arith, g.marks);
          low = g.low;
          high = g.high;
          fits = g.fits;
        },
      )
    ]
  ]
    where
      longer : Bool → ℕ → Bool → Addrlist
      longer f =
          if f
          then update list i
              (put (curr_of e) (list i (curr_of e) ++ (line_addr first, num_bits) ∷ []) (list i))
          else list

      entry : Region
      entry = (line_addr first, num_bits)

      at_end : (k : Bool) → curr_of e ≡ k → longer true i k ≡ list i k ++ entry ∷ []
      at_end k same = ground (arith, Bool-cases k)

      row : (j : ℕ) → (longer true j c ≡ list j c) ⊎ (longer true j c ≡ list j c ++ entry ∷ [])
      row j = elim (Bool-cases (i == j)) [
        | inr different ↦ inl (ground arith)
        | inl same ↦ elim (same_or_not (curr_of e) c) [
          | inl ours ↦ inr (
              subst (λ k. longer true k c ≡ list k c ++ entry ∷ []) ((==_iff i j).0 same)
                (at_end c ours))
          | inr others ↦ inl (ground (arith, Bool-cases c, ==_iff i j))
        ]
      ]

      grown :
          (f : Bool) (j : ℕ)
          → 0 < count l (lines (list j c) [])
          → 0 < count l (lines (longer f j c) [])
      grown false j m = m
      grown true j m = elim (row j) [
        | inl same ↦ subst (λ rs. 0 < count l (lines rs [])) (sym same) m
        | inr more ↦
            subst (λ rs. 0 < count l (lines rs [])) (sym more)
              (omega (arith, m, count-lines-append l (list j c) entry))
      ]

      gained :
          (j : ℕ) → InRegion c pc activity l j → i ≡ j → 0 < count l (lines (longer flag i c) [])
      gained j g same =
          let agree : marking first num_bits num_bits flag
              ≡ marking g.first g.num_bits g.done true =
            sym a ∙ ap activity same ∙ g.marks in
          let epochs : inside e ≡ inside g.e = sym p ∙ ap pc same ∙ g.is_inside in
          let ours : curr_of e ≡ c = ground (arith, epochs, ap curr_of, g.parity) in
          let here : 0 < count l (lines (entry ∷ []) []) =
            region_member l first num_bits (ground (arith, agree, g.low))
              (ground (arith, agree, g.high)) in
          let set : true ≡ flag = ground (arith, agree) in
          subst (λ f. 0 < count l (lines (longer f i c) [])) set
            (subst (λ rs. 0 < count l (lines rs [])) (sym (at_end c ours))
              (omega (arith, here, count-lines-append l (list i c) entry)))
