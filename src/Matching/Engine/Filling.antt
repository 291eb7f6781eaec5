-- ===== src/Matching/Engine/Filling.antt =====
-- Filling the first order of a level: the invariant, the volume and the queues of its side.
use mathlib.Core.List.Perm
use mogtrade_engine.Base.{
  ◌≡◌, ◌≢◌, ◌∙◌, refl, sym, ap, Bool, true, false, ◌&&◌, some, inl, inr, String, List, [], ◌∷◌,
  Perm, All, arith, length, nth, Bool-cases, string_eq, ◌is◌, is_refl, ◌==◌, if◌then◌else◌,
}
use mogtrade_engine.Base.Dict.{
  lookup, insert, erase, keys-insert_old, keys-erase-perm, lookup-insert, lookup-erase_ne,
  lookup-erase_self, Entries-insert, Entries-lookup, Entries-erase, insert-IsDistinct,
  erase-IsDistinct,
}
use mogtrade_engine.Decimal.{Decimals}
use mogtrade_engine.Decimal.Laws.{sub_self, zero_add, add-cancel, lt-sub}
use mogtrade_engine.Matching.Heap
use mogtrade_engine.Matching.Heap.{HeapOrder, peek}
use mogtrade_engine.Matching.Heap.Removal.{pop-perm, pop-IsOrdered}
use mogtrade_engine.Matching.Heap.Order.{IsOrdered}
use mogtrade_engine.Matching.Book.{OrderEntry, Level, Ladder}
use mogtrade_engine.Matching.Book.Valid.{sum_of, IsPositive, IsLevel, EntryIsLevel, IsLadder, queue}
use mogtrade_engine.Matching.Engine.Volume.{volume, swap_add, volume-insert, volume-erase}
use mogtrade_engine.Matching.Engine.{drop_price, fill_level, fill}

module _ (d : Decimals) where
  open d use {
    Amount, zero_amount, add, sub, less_than, lt_connected, equal, equal_iff, is_zero, is_zero_iff,
    string, string-injective, add_comm, add_assoc, add_zero, sub_add,
  }

  -- What is left of a sum whose first part shrinks.
  sub-add_left : (a b q : Amount) → sub (add a b) q ≡ add (sub a q) b
  sub-add_left a b q =
      add-cancel d (sub (add a b) q) (add (sub a q) b) q
        (sub_add (add a b) q ∙ sym (swap_add d (sub a q) b q ∙ ap (λ x. add x b) (sub_add a q)))

  -- An order's queue once `quantity` of its first order is filled.
  abbrev pub filled :
      OrderEntry Amount → List (OrderEntry Amount) → Amount → List (OrderEntry Amount)
  filled e rest quantity =
      let left = sub e.quantity quantity in
      if is_zero left then rest else record e { quantity = left } ∷ rest

  fill_level-sum :
      (e : OrderEntry Amount) (rest : List (OrderEntry Amount)) (quantity : Amount)
      → sub (sum_of d (e ∷ rest)) quantity ≡ sum_of d (filled e rest quantity)
  unfolding sum_of
  fill_level-sum e rest quantity = elim (Bool-cases (is_zero (sub e.quantity quantity))) [
    | inl none_left ↦ rw none_left (
        sub-add_left e.quantity (sum_of d rest) quantity
        ∙ ap (λ x. add x (sum_of d rest)) ((is_zero_iff _).0 none_left)
        ∙ zero_add d (sum_of d rest))
    | inr left ↦ rw left (sub-add_left e.quantity (sum_of d rest) quantity)
  ]

  -- What is left of an order is positive, unless it is zero.
  left_positive :
      (a q : Amount)
      → less_than a q ≡ false
      → is_zero (sub a q) ≡ false
      → less_than zero_amount (sub a q) ≡ true
  left_positive a q fits left = elim (Bool-cases (less_than q a)) [
    | inl more ↦ lt-sub d a q ∙ more
    | inr same ↦
        let eq = lt_connected a q fits same in
        absurd (ground (arith, sub_self d a, is_zero_iff (sub a q)))
  ]

  module _ (o : HeapOrder Amount) (s : Ladder Amount) (price : Amount) (l : Level Amount)
      (e : OrderEntry Amount) (rest : List (OrderEntry Amount)) (quantity : Amount)
      (v : IsLadder d o s) (first : peek s.prices ≡ some price)
      (found : lookup (string price) s.levels ≡ some l) (head : l.orders ≡ e ∷ rest)
      (fits : less_than e.quantity quantity ≡ false) where
    abbrev key : String
    key = string price

    level : IsLevel d l
    level = Entries-lookup (EntryIsLevel d) key l s.levels v.queued found

    abbrev gone : Bool
    gone = is_zero (sub e.quantity quantity) && (length rest == 0)

    different : (p : Amount) → equal p price ≡ false → string p ≢ key
    different p other same = ground (arith, string-injective p price same, equal_iff p price)

    apart : (p : Amount) → equal p price ≡ false → (key is string p) ≡ false
    apart p other =
        ground
          (arith, string-injective p price, equal_iff p price, string_eq.beq_iff key (string p))

    peeked-perm : (ps : List Amount) → peek ps ≡ some price → Perm (price ∷ Heap.pop o ps) ps
    unfolding peek nth
    peeked-perm [] h = absurd (ground arith)
    peeked-perm (p ∷ ps) h =
        let root : p ≡ price = ground arith in rw (← root) (pop-perm o (length ps) (p ∷ ps) refl)

    pop_prices-IsOrdered :
        (ps : List Amount) → peek ps ≡ some price → IsOrdered o ps → IsOrdered o (Heap.pop o ps)
    unfolding peek
    pop_prices-IsOrdered [] h order = absurd (ground arith)
    pop_prices-IsOrdered (p ∷ ps) h order = pop-IsOrdered o (length ps) (p ∷ ps) refl order

    fill_level-IsLevel : gone ≡ false → IsLevel d (fill_level d l e rest quantity)
    unfolding fill_level
    fill_level-IsLevel kept = record {
      waiting = ground arith;
      volume = ap (λ x. sub x quantity) level.volume ∙ rw head (fill_level-sum e rest quantity);
      positive = filled-positive (rw head at level.positive);
    }
      where
        filled-positive :
            All (IsPositive d) (e ∷ rest) → All (IsPositive d) (filled e rest quantity)
        filled-positive h = elim (Bool-cases (is_zero (sub e.quantity quantity))) [
          | inl none_left ↦ rw none_left h.1
          | inr left ↦ rw left (left_positive e.quantity quantity fits left, h.1)
        ]

    drop_price-IsLadder : IsLadder d o (drop_price d o s price)
    unfolding drop_price
    drop_price-IsLadder = record {
      ordered = pop_prices-IsOrdered s.prices first v.ordered;
      indexed = Perm.cons_inv (
          Perm.trans (Perm.map string (peeked-perm s.prices first))
            (Perm.trans v.indexed (Perm.symm (keys-erase-perm key l s.levels found))));
      distinct = erase-IsDistinct key s.levels v.distinct;
      queued = Entries-erase (EntryIsLevel d) key s.levels v.queued;
    }

    pub fill-IsLadder : IsLadder d o (fill d o s price l e rest quantity)
    unfolding fill
    fill-IsLadder = elim (Bool-cases gone) [
      | inl empty ↦ rw (empty, fill) drop_price-IsLadder
      | inr kept ↦
          rw (kept, fill)
            (record {
              ordered = v.ordered;
              indexed =
                  rw (keys-insert_old key (fill_level d l e rest quantity) l s.levels found)
                    v.indexed;
              distinct = insert-IsDistinct key (fill_level d l e rest quantity) s.levels v.distinct;
              queued =
                  Entries-insert (EntryIsLevel d) key (fill_level d l e rest quantity) s.levels
                    v.queued (fill_level-IsLevel kept);
            })
    ]

    empty_rest : (es : List (OrderEntry Amount)) → (length es == 0) ≡ true → es ≡ []
    empty_rest [] h = refl
    empty_rest (x ∷ es) h = absurd (ground arith)

    -- A level that goes held the quantity alone.
    last_volume : gone ≡ true → l.total_volume ≡ quantity
    unfolding sum_of
    last_volume empty =
        let used : sub e.quantity quantity ≡ zero_amount = (is_zero_iff _).0 (ground arith) in
        let alone : rest ≡ [] = empty_rest rest (ground arith) in
        level.volume
        ∙ rw (head, alone) (add_zero e.quantity)
        ∙ sym (sub_add e.quantity quantity)
        ∙ ap (λ x. add x quantity) used
        ∙ zero_add d quantity

    -- The side's volume falls by the quantity.
    pub fill-volume :
        add (volume d (fill d o s price l e rest quantity).levels) quantity ≡ volume d s.levels
    unfolding fill fill_level drop_price
    fill-volume = elim (Bool-cases gone) [
      | inl empty ↦
          rw (empty, fill)
            (ap (add (volume d (erase key s.levels))) (sym (last_volume empty))
              ∙ volume-erase d key l s.levels found)
      | inr kept ↦
          rw (kept, fill)
            (add-cancel d _ _ l.total_volume (
              swap_add d _ quantity l.total_volume
              ∙ ap (λ x. add x quantity)
                  (volume-insert d key l (fill_level d l e rest quantity) s.levels found)
              ∙ add_assoc (volume d s.levels) (sub l.total_volume quantity) quantity
              ∙ ap (add (volume d s.levels)) (sub_add l.total_volume quantity)))
    ]

    queue-erase :
        (p : Amount)
        → gone ≡ true
        → queue d (drop_price d o s price) p
          ≡ (if equal p price then filled e rest quantity else queue d s p)
    unfolding drop_price queue
    queue-erase p empty = elim (Bool-cases (equal p price)) [
      | inl same ↦
          let used : is_zero (sub e.quantity quantity) ≡ true = ground arith in
          let alone : rest ≡ [] = empty_rest rest (ground arith) in
          rw ((equal_iff p price).0 same) (
            rw (lookup-erase_self key s.levels v.distinct, queue)
              (rw ((equal_iff price price).1 refl, used, alone)))
      | inr other ↦ rw (other, lookup-erase_ne (string p) key s.levels (different p other), queue)
    ]

    queue-insert :
        (p : Amount)
        → queue d (record s { levels = insert key (fill_level d l e rest quantity) s.levels }) p
          ≡ (if equal p price then filled e rest quantity else queue d s p)
    unfolding fill_level queue
    queue-insert p = elim (Bool-cases (equal p price)) [
      | inl same ↦ rw ((equal_iff p price).0 same) (
          rw (lookup-insert key key (fill_level d l e rest quantity) s.levels, queue)
            (rw (is_refl key, (equal_iff price price).1 refl)))
      | inr other ↦ rw (
        other,
        lookup-insert key (string p) (fill_level d l e rest quantity) s.levels,
        apart p other,
        queue,
      )
    ]

    -- Only the queue at the price changes, and it is what the quantity leaves of it.
    pub fill-queue :
        (p : Amount)
        → queue d (fill d o s price l e rest quantity) p
          ≡ (if equal p price then filled e rest quantity else queue d s p)
    unfolding fill
    fill-queue p = elim (Bool-cases gone) [
      | inl empty ↦ rw (empty, fill) (queue-erase p empty)
      | inr kept ↦ rw (kept, fill) (queue-insert p)
    ]
