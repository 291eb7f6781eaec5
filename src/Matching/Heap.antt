-- ===== src/Matching/Heap.antt =====
-- Go's container/heap on a slice of prices, as services/matching/book.go uses it through
-- sellPriceList and buyPriceList: Push, Pop and Remove over the slice's own Less and Swap, and
-- Peek. An index is an `int` in Go; those here stay below twice the length plus two.
pub mod Order
pub mod Up
pub mod Down
pub mod Contents
pub mod Removal
use mogtrade_engine.Base.{
  ℕ, zero, suc, ◌+◌, ◌-◌, ◌*◌, ◌/◌, ◌≡◌, Bool, true, false, not, ◌&&◌, ◌||◌, Option, none, some,
  List, [], ◌∷◌, ◌++◌, ltb, leb, ◌==◌, if◌then◌else◌, length, take, nth, swap,
}

-- The comparison of a price list, Less on two entries, with its laws. `absent` stands for a read
-- out of range, which panics in Go and does not happen in a heap operation.
pub record HeapOrder (A : Type 0) : Type 0 where
  pub less : A → A → Bool
  pub absent : A
  pub less_asym : (a b : A) → less a b ≡ true → less b a ≡ false
  pub less_irrefl : (a : A) → less a a ≡ false
  pub ge_trans : (a b c : A) → less b a ≡ false → less c b ≡ false → less c a ≡ false

module _ {A : Type 0} (o : HeapOrder A) where
  -- Less(i, j)
  abbrev pub less_at : List A → ℕ → ℕ → Bool
  less_at xs i j = o.less (nth o.absent xs i) (nth o.absent xs j)

  abbrev pub parent : ℕ → ℕ
  parent j = (j - 1) / 2

  unfoldable pub up_loop : ℕ → List A → ℕ → List A
  up_loop zero xs j = xs
  up_loop (suc fuel) xs j =
      let rest = up_loop fuel (swap o.absent xs (parent j) j) (parent j) in
      if parent j == j || not (less_at xs j (parent j)) then xs else rest

  unfoldable pub up : List A → ℕ → List A
  up xs j = up_loop (j + 1) xs j

  -- The child of `i` that comes first, among those below `n`; the left child is below `n`.
  unfoldable pub first_child : List A → ℕ → ℕ → ℕ
  first_child xs i n =
      let j1 = 2 * i + 1 in if ltb (j1 + 1) n && less_at xs (j1 + 1) j1 then j1 + 1 else j1

  unfoldable pub down_loop : ℕ → List A → ℕ → ℕ → List A × ℕ
  down_loop zero xs i n = (xs, i)
  down_loop (suc fuel) xs i n =
      let j = first_child xs i n in
      let rest = down_loop fuel (swap o.absent xs i j) j n in
      if leb n (2 * i + 1) || not (less_at xs j i) then (xs, i) else rest

  -- The result also says whether the entry moved.
  unfoldable pub down : List A → ℕ → ℕ → List A × Bool
  down xs i n = let (ys, j) = down_loop (suc n) xs i n in (ys, ltb i j)

  -- heap.Push on the list's own Push, an append
  unfoldable pub push : List A → A → List A
  push xs x = up (xs ++ x ∷ []) (length xs)

  -- heap.Pop on the list's own Pop, which drops the last entry. The caller has seen an entry by
  -- Peek; on an empty slice Go panics.
  unfoldable pub pop : List A → List A
  pop xs = let n = length xs - 1 in take n (down (swap o.absent xs 0 n) 0 n).0

  -- if !down(h, i, n) { up(h, i) }
  unfoldable pub sift : List A → ℕ → ℕ → List A
  sift xs i n = let (ys, moved) = down xs i n in if moved then ys else up ys i

  -- heap.Remove
  unfoldable pub remove : List A → ℕ → List A
  remove xs i =
      let n = length xs - 1 in take n (if n == i then xs else sift (swap o.absent xs i n) i n)

-- Peek of sellPriceList and buyPriceList
unfoldable pub peek : {A : Type 0} → List A → Option A
peek [] = none
peek (x ∷ xs) = some x
