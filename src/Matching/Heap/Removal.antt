-- ===== src/Matching/Heap/Removal.antt =====
-- heap.Pop and heap.Remove take out one entry and keep the heap order.
use mogtrade_engine.Base.{
  ℕ, suc, ◌-◌, ◌≤◌, ◌<◌, ◌≡◌, ◌≢◌, true, false, inl, inr, Bool-cases, List, ◌∷◌, Perm, arith,
  length, nth, nth-swap, length-swap, length-perm, last-perm, swap-perm, swap, ◌==◌, ltb, ◌&&◌,
}
use mogtrade_engine.Matching.Heap.{HeapOrder, less_at, parent, down, sift, pop, remove}
use mogtrade_engine.Matching.Heap.Order.{IsHeap, IsOrdered, IsBridged}
use mogtrade_engine.Matching.Heap.Up.{UpInv, up-IsHeap}
use mogtrade_engine.Matching.Heap.Down.{DownInv, down-IsHeap, down_stays}
use mogtrade_engine.Matching.Heap.Contents.{
  Shuffles, Shuffles-trans, up-Shuffles, down-Shuffles, take-IsOrdered, drop_last-perm,
}

module _ {A : Type 0} (o : HeapOrder A) where
  heap-UpInv :
      (n : ℕ) (xs : List A) (i : ℕ) → i < n → n ≤ length xs → IsHeap o n xs → UpInv o n xs i
  heap-UpInv n xs i h fits order =
      let get = λ (k : ℕ). nth o.absent xs k in
      record {
        inside = h;
        fits = fits;
        edges = λ c p q r. order c p q;
        bridged = λ c p q r t.
            ground (arith, order c, order i, o.ge_trans (get (parent o i)) (get i) (get c));
      }

  sift-IsHeap :
      (n : ℕ) (xs : List A) (i : ℕ) → i < n → DownInv o n xs i → IsHeap o n (sift o xs i n)
  unfolding sift
  sift-IsHeap n xs i h v =
      let s = down-Shuffles o n xs i v.fits in
      let order = down-IsHeap o n xs i v in
      elim (Bool-cases (down o xs i n).1) [
        | inl e ↦ rw e order
        | inr e ↦ rw e (
            up-IsHeap o n _ i
              (heap-UpInv n _ i h (omega (arith, v.fits, length-perm s.perm)) order))
      ]

  sift-Shuffles :
      (n : ℕ) (xs : List A) (i : ℕ) → i < n → n ≤ length xs → Shuffles o n xs (sift o xs i n)
  unfolding sift
  sift-Shuffles n xs i h fits =
      let s = down-Shuffles o n xs i fits in
      elim (Bool-cases (down o xs i n).1) [
        | inl e ↦ rw e s
        | inr e ↦
            rw e (
              Shuffles-trans o n s
                (up-Shuffles o n _ i h (omega (arith, fits, length-perm s.perm))))
      ]

  module _ (n : ℕ) (xs : List A) (size : length xs ≡ suc n) where
    pub pop-perm : Perm (nth o.absent xs 0 ∷ pop o xs) xs
    unfolding pop
    pop-perm =
        let ys = swap o.absent xs 0 n in
        let last : nth o.absent ys n ≡ nth o.absent xs 0 =
          ground (arith, nth-swap o.absent xs 0 n n (omega arith) (omega arith)) in
        let count : length xs - 1 ≡ n = omega arith in
        rw count (
          rw last at (
            drop_last-perm o n xs ys (down o ys 0 n).0 size
              (swap-perm o.absent xs 0 n (omega arith) (omega arith))
              (down-Shuffles o n ys 0 (omega (arith, length-swap o.absent xs 0 n)))))

    -- The list that Pop and Remove hand to `down`, with entry `i` moved to the end.
    moved-edges :
        (i : ℕ)
        → i < n
        → IsOrdered o xs
        → (c : ℕ) → 0 < c
        → c < n
        → c ≢ i
        → parent o c ≢ i
        → less_at o (swap o.absent xs i n) c (parent o c) ≡ false
    moved-edges i h order c p q r t =
        let at = λ (k : ℕ). nth-swap o.absent xs i n k (omega arith) (omega arith) in
        ground (arith, at c, at (parent o c), order c)

    moved-IsBridged : (i : ℕ) → i < n → IsOrdered o xs → IsBridged o n (swap o.absent xs i n) i
    moved-IsBridged i h order = λ c p q r t.
        let at = λ (k : ℕ). nth-swap o.absent xs i n k (omega arith) (omega arith) in
        let get = λ (k : ℕ). nth o.absent xs k in
        ground (
          arith,
          at c,
          at (parent o i),
          order c,
          order i,
          o.ge_trans (get (parent o i)) (get i) (get c),
        )

    moved-DownInv :
        (i : ℕ)
        → i < n
        → IsOrdered o xs
        → (0 < i → less_at o (swap o.absent xs i n) i (parent o i) ≡ false)
        → DownInv o n (swap o.absent xs i n) i
    moved-DownInv i h order above = record {
      fits = omega (arith, length-swap o.absent xs i n);
      edges = λ c p q r. ground (arith, above, moved-edges i h order c);
      bridged = moved-IsBridged i h order;
    }

    root-DownInv : IsOrdered o xs → DownInv o n (swap o.absent xs 0 n) 0
    root-DownInv order = record {
      fits = omega (arith, length-swap o.absent xs 0 n);
      edges = λ c p q r.
          let at = λ (k : ℕ). nth-swap o.absent xs 0 n k (omega arith) (omega arith) in
          ground (arith, at c, at (parent o c), order c);
      bridged = λ c p q r t. absurd (omega arith);
    }

    pub pop-IsOrdered : IsOrdered o xs → IsOrdered o (pop o xs)
    unfolding pop
    pop-IsOrdered order =
        let ys = swap o.absent xs 0 n in
        let fits : n ≤ length ys = omega (arith, length-swap o.absent xs 0 n) in
        let count : length xs - 1 ≡ n = omega arith in
        let s = down-Shuffles o n ys 0 fits in
        rw count (
          take-IsOrdered o n (down o ys 0 n).0 (down-IsHeap o n ys 0 (root-DownInv order))
            (omega (arith, length-perm s.perm)))

    moved-UpInv :
        (i : ℕ)
        → i < n
        → 0 < i
        → IsOrdered o xs
        → less_at o (swap o.absent xs i n) i (parent o i) ≡ true
        → UpInv o n (swap o.absent xs i n) i
    moved-UpInv i h pos order first =
        let ys = swap o.absent xs i n in
        let get = λ (k : ℕ). nth o.absent ys k in
        record {
          inside = h;
          fits = omega (arith, length-swap o.absent xs i n);
          edges = λ c p q r. ground (
            arith,
            moved-edges i h order c,
            moved-IsBridged i h order c,
            o.less_asym (get i) (get (parent o i)) first,
            o.ge_trans (get i) (get (parent o i)) (get c),
          );
          bridged = moved-IsBridged i h order;
        }

    sift-moved-IsHeap :
        (i : ℕ) → i < n → IsOrdered o xs → IsHeap o n (sift o (swap o.absent xs i n) i n)
    unfolding sift
    sift-moved-IsHeap i h order =
        let ys = swap o.absent xs i n in
        elim (Bool-cases (ltb 0 i && less_at o ys i (parent o i))) [
          | inl e ↦
              let pos : 0 < i = ground arith in
              let first : less_at o ys i (parent o i) ≡ true = ground arith in
              rw (down_stays o n ys i (moved-IsBridged i h order) pos first)
                (up-IsHeap o n ys i (moved-UpInv i h pos order first))
          | inr e ↦ sift-IsHeap n ys i h (moved-DownInv i h order (λ pos. ground arith))
        ]

    pub remove-perm : (i : ℕ) → i ≤ n → Perm (nth o.absent xs i ∷ remove o xs i) xs
    unfolding remove
    remove-perm i h =
        let ys = swap o.absent xs i n in
        let count : length xs - 1 ≡ n = omega arith in
        rw count (elim (Bool-cases (n == i)) [
          | inl e ↦
              let same : n ≡ i = ground arith in rw e (rw (← same) (last-perm o.absent n xs size))
          | inr e ↦
              let last : nth o.absent ys n ≡ nth o.absent xs i =
                ground (arith, nth-swap o.absent xs i n n (omega arith) (omega arith)) in
              let inside : i < n = ground arith in
              rw e (
                rw last at (
                  drop_last-perm o n xs ys (sift o ys i n) size
                    (swap-perm o.absent xs i n (omega arith) (omega arith))
                    (sift-Shuffles n ys i inside (omega (arith, length-swap o.absent xs i n)))))
        ])

    pub remove-IsOrdered : (i : ℕ) → i ≤ n → IsOrdered o xs → IsOrdered o (remove o xs i)
    unfolding remove
    remove-IsOrdered i h order =
        let ys = swap o.absent xs i n in
        let count : length xs - 1 ≡ n = omega arith in
        rw count (elim (Bool-cases (n == i)) [
          | inl e ↦ rw e (take-IsOrdered o n xs (λ c p q. order c p (omega arith)) (omega arith))
          | inr e ↦
              let inside : i < n = ground arith in
              let fits : n ≤ length ys = omega (arith, length-swap o.absent xs i n) in
              let s = sift-Shuffles n ys i inside fits in
              rw e (
                take-IsOrdered o n (sift o ys i n) (sift-moved-IsHeap i inside order)
                  (omega (arith, length-perm s.perm)))
        ])
