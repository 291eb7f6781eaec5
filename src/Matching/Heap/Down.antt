-- ===== src/Matching/Heap/Down.antt =====
-- `down` restores the heap order when one entry may come behind its children.
use mogtrade_engine.Base.{
  ℕ, zero, suc, ◌+◌, ◌*◌, ◌≤◌, ◌<◌, ◌≡◌, ◌≢◌, ◌⊎◌, true, false, not, ◌||◌, inl, inr, Bool-cases,
  List, arith, length, nth, nth-swap, length-swap, swap, leb,
}
use mogtrade_engine.Matching.Heap.{HeapOrder, less_at, parent, first_child, down, down_loop}
use mogtrade_engine.Matching.Heap.Order.{IsHeap, IsBridged}

module _ {A : Type 0} (o : HeapOrder A) where
  -- In the first `n` entries only the edges below `i` may be out of order.
  pub record DownInv (n : ℕ) (xs : List A) (i : ℕ) : Type 0 where
    pub fits : n ≤ length xs
    pub edges : (c : ℕ) → 0 < c → c < n → parent o c ≢ i → less_at o xs c (parent o c) ≡ false
    pub bridged : IsBridged o n xs i

  -- `m` is a child of `i`, and no child of `i` comes before it.
  record IsFirstChild (n : ℕ) (xs : List A) (i m : ℕ) : Type 0 where
    inside : m < n
    child : (m ≡ 2 * i + 1) ⊎ (m ≡ 2 * i + 2)
    first : (c : ℕ) → 0 < c → c < n → parent o c ≡ i → less_at o xs c m ≡ false

  first_child-IsFirstChild :
      (n : ℕ) (xs : List A) (i : ℕ) → 2 * i + 1 < n → IsFirstChild n xs i (first_child o xs i n)
  unfolding first_child
  first_child-IsFirstChild n xs i h =
      let get = λ (k : ℕ). nth o.absent xs k in
      record {
        inside = ground arith;
        child = ground arith;
        first = λ c p q r. elim (cases c p r) [
          | inl e ↦ rw e (
              ground (
                arith,
                o.less_irrefl (get (2 * i + 1)),
                o.less_asym (get (2 * i + 1 + 1)) (get (2 * i + 1)),
              ))
          | inr e ↦ rw e (ground (arith, o.less_irrefl (get (2 * i + 1 + 1))))
        ];
      }
    where
      cases : (c : ℕ) → 0 < c → parent o c ≡ i → (c ≡ 2 * i + 1) ⊎ (c ≡ 2 * i + 1 + 1)
      cases c p r = omega arith

  swap-DownInv :
      (n : ℕ) (xs : List A) (i m : ℕ)
      → DownInv n xs i
      → IsFirstChild n xs i m
      → less_at o xs m i ≡ true
      → DownInv n (swap o.absent xs i m) m
  swap-DownInv n xs i m v s first =
      let get = λ (k : ℕ). nth o.absent xs k in
      let at = λ (c : ℕ). nth-swap o.absent xs i m c (omega arith) (omega arith) in
      let below = o.less_asym (get m) (get i) first in
      record {
        fits = omega (arith, length-swap o.absent xs i m);
        edges = λ c p q r.
            ground (arith, at c, at (parent o c), below, v.edges c, v.bridged m, s.first c);
        bridged = λ c p q r t. ground (arith, at c, at (parent o m), v.edges c);
      }

  settled :
      (n : ℕ) (xs : List A) (i : ℕ)
      → DownInv n xs i
      → (leb n (2 * i + 1) || not (less_at o xs (first_child o xs i n) i)) ≡ true
      → IsHeap o n xs
  settled n xs i v e = λ c p q. elim (Bool-cases (leb n (2 * i + 1))) [
    | inl leaf ↦ ground (arith, v.edges c)
    | inr has ↦
        let s = first_child-IsFirstChild n xs i (ground arith) in
        let get = λ (k : ℕ). nth o.absent xs k in
        ground
          (arith, v.edges c, s.first c, o.ge_trans (get i) (get (first_child o xs i n)) (get c))
  ]

  down_loop-IsHeap :
      (fuel n : ℕ) (xs : List A) (i : ℕ)
      → n < fuel + i
      → DownInv n xs i
      → IsHeap o n (down_loop o fuel xs i n).0
  unfolding down_loop
  down_loop-IsHeap zero n xs i f v = λ c p q. v.edges c p q (omega arith)
  down_loop-IsHeap (suc fuel) n xs i f v =
      elim (Bool-cases (leb n (2 * i + 1) || not (less_at o xs (first_child o xs i n) i))) [
        | inl e ↦ rw e (settled n xs i v e)
        | inr e ↦
            let s = first_child-IsFirstChild n xs i (ground arith) in
            let m = first_child o xs i n in
            rw e
              (down_loop-IsHeap fuel n _ m (omega arith) (swap-DownInv n xs i m v s (ground arith)))
      ]

  pub down-IsHeap : (n : ℕ) (xs : List A) (i : ℕ) → DownInv n xs i → IsHeap o n (down o xs i n).0
  unfolding down
  down-IsHeap n xs i v = down_loop-IsHeap (suc n) n xs i (omega arith) v

  stop :
      (n : ℕ) (xs : List A) (i : ℕ)
      → IsBridged o n xs i
      → 0 < i
      → less_at o xs i (parent o i) ≡ true
      → (leb n (2 * i + 1) || not (less_at o xs (first_child o xs i n) i)) ≡ true
  stop n xs i bridged pos first = elim (Bool-cases (leb n (2 * i + 1))) [
    | inl leaf ↦ ground arith
    | inr has ↦
        let s = first_child-IsFirstChild n xs i (ground arith) in
        let get = λ (k : ℕ). nth o.absent xs k in
        let m = first_child o xs i n in
        ground (
          arith,
          bridged m,
          o.ge_trans (get i) (get (parent o i)) (get m),
          o.less_asym (get i) (get (parent o i)) first,
        )
  ]

  -- An entry that comes before its parent stays where it is.
  pub down_stays :
      (n : ℕ) (xs : List A) (i : ℕ)
      → IsBridged o n xs i
      → 0 < i
      → less_at o xs i (parent o i) ≡ true
      → down o xs i n ≡ (xs, false)
  unfolding down down_loop
  down_stays n xs i bridged pos first = rw (stop n xs i bridged pos first) (ground arith)
