-- ===== src/Matching/Heap/Contents.antt =====
-- heap.Push inserts its entry and keeps the heap order; `up` and `down` permute the entries.
use mathlib.Core.List.{perm_middle, append-nil}
use mathlib.Core.List.Perm
use mogtrade_engine.Base.{
  ℕ, zero, suc, ◌+◌, ◌*◌, ◌≤◌, ◌<◌, ◌≡◌, ◌∙◌, not, ◌||◌, inl, inr, Bool-cases, List, [], ◌∷◌, ◌++◌,
  Perm, arith, length, take, nth, nth-swap, nth-take, nth-append, length-take, length-swap,
  length-append, length-perm, last-perm, swap-perm, swap, leb, ◌==◌,
}
use mogtrade_engine.Matching.Heap.{
  HeapOrder, less_at, parent, up_loop, up, first_child, down_loop, down, push,
}
use mogtrade_engine.Matching.Heap.Order.{IsHeap, IsOrdered}
use mogtrade_engine.Matching.Heap.Up.{UpInv, up-IsHeap}

module _ {A : Type 0} (o : HeapOrder A) where
  -- `ys` has the entries of `xs`, and the same from position `n` on.
  pub record Shuffles (n : ℕ) (xs ys : List A) : Type 0 where
    pub perm : Perm ys xs
    pub beyond : (k : ℕ) → n ≤ k → nth o.absent ys k ≡ nth o.absent xs k

  Shuffles-refl : (n : ℕ) (xs : List A) → Shuffles n xs xs
  Shuffles-refl n xs = record { perm = Perm.refl xs; beyond = λ k h. ground arith }

  pub Shuffles-trans :
      (n : ℕ) {xs ys zs : List A} → Shuffles n xs ys → Shuffles n ys zs → Shuffles n xs zs
  Shuffles-trans n s t = record {
    perm = Perm.trans t.perm s.perm;
    beyond = λ k h. t.beyond k h ∙ s.beyond k h;
  }

  swap-Shuffles :
      (n : ℕ) (xs ys : List A) (i j : ℕ)
      → i < n
      → j < n
      → n ≤ length xs
      → Shuffles n (swap o.absent xs i j) ys
      → Shuffles n xs ys
  swap-Shuffles n xs ys i j hi hj fits s = record {
    perm = Perm.trans s.perm (swap-perm o.absent xs i j (omega arith) (omega arith));
    beyond =
        λ k h. ground (arith, s.beyond k h, nth-swap o.absent xs i j k (omega arith) (omega arith));
  }

  up_loop-Shuffles :
      (fuel n : ℕ) (xs : List A) (j : ℕ)
      → j < n
      → n ≤ length xs
      → Shuffles n xs (up_loop o fuel xs j)
  unfolding up_loop
  up_loop-Shuffles zero n xs j h fits = Shuffles-refl n xs
  up_loop-Shuffles (suc fuel) n xs j h fits =
      elim (Bool-cases (parent o j == j || not (less_at o xs j (parent o j)))) [
        | inl e ↦ rw e (Shuffles-refl n xs)
        | inr e ↦ rw e (
            swap-Shuffles n xs _ (parent o j) j (omega arith) h fits (
              up_loop-Shuffles fuel n _ (parent o j) (omega arith)
                (omega (arith, length-swap o.absent xs (parent o j) j))))
      ]

  first_child_below : (xs : List A) (i n : ℕ) → 2 * i + 1 < n → first_child o xs i n < n
  unfolding first_child
  first_child_below xs i n h = ground arith

  down_loop-Shuffles :
      (fuel n : ℕ) (xs : List A) (i : ℕ) → n ≤ length xs → Shuffles n xs (down_loop o fuel xs i n).0
  unfolding down_loop
  down_loop-Shuffles zero n xs i fits = Shuffles-refl n xs
  down_loop-Shuffles (suc fuel) n xs i fits =
      elim (Bool-cases (leb n (2 * i + 1) || not (less_at o xs (first_child o xs i n) i))) [
        | inl e ↦ rw e (Shuffles-refl n xs)
        | inr e ↦
            let has : 2 * i + 1 < n = ground arith in
            let m = first_child o xs i n in
            rw e (
              swap-Shuffles n xs _ i m (omega arith) (first_child_below xs i n has) fits
                (down_loop-Shuffles fuel n _ m (omega (arith, length-swap o.absent xs i m))))
      ]

  pub down-Shuffles :
      (n : ℕ) (xs : List A) (i : ℕ) → n ≤ length xs → Shuffles n xs (down o xs i n).0
  unfolding down
  down-Shuffles n xs i fits = down_loop-Shuffles (suc n) n xs i fits

  pub up-Shuffles :
      (n : ℕ) (xs : List A) (j : ℕ) → j < n → n ≤ length xs → Shuffles n xs (up o xs j)
  unfolding up
  up-Shuffles n xs j h fits = up_loop-Shuffles (j + 1) n xs j h fits

  pub take-IsOrdered :
      (n : ℕ) (xs : List A) → IsHeap o n xs → n ≤ length xs → IsOrdered o (take n xs)
  take-IsOrdered n xs h fits = λ c p q.
      let size = length-take n xs fits in
      ground (arith, size, h c, nth-take o.absent n xs c, nth-take o.absent n xs (parent o c))

  pub push-perm : (xs : List A) (x : A) → Perm (push o xs x) (x ∷ xs)
  unfolding push
  push-perm xs x =
      let size = length-append xs (x ∷ []) in
      let s =
        up-Shuffles (length xs + 1) (xs ++ x ∷ []) (length xs) (omega arith)
          (omega (arith, size)) in
      Perm.trans s.perm (rw (append-nil xs) at (perm_middle {a = x} xs []))

  push-UpInv :
      (xs : List A) (x : A) → IsOrdered o xs → UpInv o (length xs + 1) (xs ++ x ∷ []) (length xs)
  push-UpInv xs x h =
      let kept = λ (c : ℕ). nth-append o.absent xs (x ∷ []) c in
      record {
        inside = omega arith;
        fits = omega (arith, length-append xs (x ∷ []));
        edges = λ c p q r. ground (arith, h c, kept c, kept (parent o c));
        bridged = λ c p q r. absurd (omega arith);
      }

  pub push-IsOrdered : (xs : List A) (x : A) → IsOrdered o xs → IsOrdered o (push o xs x)
  unfolding push
  push-IsOrdered xs x h = λ c p q.
      up-IsHeap o (length xs + 1) (xs ++ x ∷ []) (length xs) (push-UpInv xs x h) c p
        (omega (arith, length-perm (push-perm xs x)))

  -- Dropping the last entry behind a shuffle of the entries before it.
  pub drop_last-perm :
      (n : ℕ) (xs ys zs : List A)
      → length xs ≡ suc n
      → Perm ys xs
      → Shuffles n ys zs
      → Perm (nth o.absent ys n ∷ take n zs) xs
  drop_last-perm n xs ys zs size p s =
      Perm.trans
        (rw (s.beyond n (omega arith)) at
          (last-perm o.absent n zs (length-perm s.perm ∙ (length-perm p ∙ size))))
        (Perm.trans s.perm p)
