-- ===== src/Matching/Heap/Up.antt =====
-- `up` restores the heap order when one entry may come before its parent.
use mogtrade_engine.Base.{
  ℕ, zero, suc, ◌+◌, ◌≤◌, ◌<◌, ◌≡◌, ◌≢◌, true, false, not, ◌||◌, inl, inr, Bool-cases, List, arith,
  length, nth, nth-swap, length-swap, swap, ◌==◌,
}
use mogtrade_engine.Matching.Heap.{HeapOrder, less_at, parent, up, up_loop}
use mogtrade_engine.Matching.Heap.Order.{IsHeap, IsBridged}

module _ {A : Type 0} (o : HeapOrder A) where
  -- In the first `n` entries only the edge above `j` may be out of order.
  pub record UpInv (n : ℕ) (xs : List A) (j : ℕ) : Type 0 where
    pub inside : j < n
    pub fits : n ≤ length xs
    pub edges : (c : ℕ) → 0 < c → c < n → c ≢ j → less_at o xs c (parent o c) ≡ false
    pub bridged : IsBridged o n xs j

  swap-UpInv :
      (n : ℕ) (xs : List A) (j : ℕ)
      → UpInv n xs j
      → 0 < j
      → less_at o xs j (parent o j) ≡ true
      → UpInv n (swap o.absent xs (parent o j) j) (parent o j)
  swap-UpInv n xs j v pos first =
      let p = parent o j in
      let get = λ (i : ℕ). nth o.absent xs i in
      let at = λ (c : ℕ). nth-swap o.absent xs p j c (omega arith) (omega arith) in
      let below = o.less_asym (get j) (get p) first in
      record {
        inside = omega arith;
        fits = omega (arith, length-swap o.absent xs p j);
        edges = λ c q r s. ground (
          arith,
          at c,
          at (parent o c),
          below,
          v.edges c,
          v.bridged c,
          o.ge_trans (get j) (get p) (get c),
        );
        bridged = λ c q r s t. ground (
          arith,
          at c,
          at (parent o p),
          v.edges c,
          v.edges p,
          o.ge_trans (get (parent o p)) (get p) (get c),
        );
      }

  settled :
      (n : ℕ) (xs : List A) (j : ℕ)
      → UpInv n xs j
      → (parent o j == j || not (less_at o xs j (parent o j))) ≡ true
      → IsHeap o n xs
  settled n xs j v e = λ c p q. ground (arith, v.edges c)

  up_loop-IsHeap :
      (fuel n : ℕ) (xs : List A) (j : ℕ)
      → j < fuel
      → UpInv n xs j
      → IsHeap o n (up_loop o fuel xs j)
  unfolding up_loop
  up_loop-IsHeap zero n xs j f v = absurd (omega arith)
  up_loop-IsHeap (suc fuel) n xs j f v =
      elim (Bool-cases (parent o j == j || not (less_at o xs j (parent o j)))) [
        | inl e ↦ rw e (settled n xs j v e)
        | inr e ↦
            let pos : 0 < j = ground arith in
            rw e (
              up_loop-IsHeap fuel n _ (parent o j) (omega arith)
                (swap-UpInv n xs j v pos (ground arith)))
      ]

  pub up-IsHeap : (n : ℕ) (xs : List A) (j : ℕ) → UpInv n xs j → IsHeap o n (up o xs j)
  unfolding up
  up-IsHeap n xs j v = up_loop-IsHeap (j + 1) n xs j (omega arith) v
