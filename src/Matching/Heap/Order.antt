-- ===== src/Matching/Heap/Order.antt =====
-- The heap order on the first `n` entries of a list, and its root.
use mogtrade_engine.Base.{ℕ, zero, suc, ◌<◌, ◌≡◌, false, List, arith, length}
use mogtrade_engine.Matching.Heap.{HeapOrder, less_at, parent}

module _ {A : Type 0} (o : HeapOrder A) where
  -- No entry comes before its parent.
  abbrev pub IsHeap : ℕ → List A → Type 0
  IsHeap n xs = (c : ℕ) → 0 < c → c < n → less_at o xs c (parent o c) ≡ false

  abbrev pub IsOrdered : List A → Type 0
  IsOrdered xs = IsHeap (length xs) xs

  -- The children of `i` do not come before the parent of `i`.
  abbrev pub IsBridged : ℕ → List A → ℕ → Type 0
  IsBridged n xs i =
      (c : ℕ) → 0 < c → c < n → parent o c ≡ i → 0 < i → less_at o xs c (parent o i) ≡ false

  root_first_below :
      (k n : ℕ) (xs : List A) → IsHeap n xs → (c : ℕ) → c < k → c < n → less_at o xs c 0 ≡ false
  root_first_below zero n xs h c p q = absurd (omega arith)
  root_first_below (suc k) n xs h zero p q = o.less_irrefl _
  root_first_below (suc k) n xs h (suc c) p q =
      o.ge_trans _ _ _ (root_first_below k n xs h (parent o (suc c)) (omega arith) (omega arith))
        (h (suc c) (omega arith) q)

  -- No entry comes before the root.
  pub root_first : (n : ℕ) (xs : List A) → IsHeap n xs → (c : ℕ) → c < n → less_at o xs c 0 ≡ false
  root_first n xs h c q = root_first_below (suc c) n xs h c (omega arith) q
