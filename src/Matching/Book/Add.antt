-- ===== src/Matching/Book/Add.antt =====
-- AddOrder keeps the invariant, and adds its quantity to the queue of its price.
use mathlib.Core.List.{perm_middle, append-nil}
use mathlib.Core.List.Perm
use mogtrade_engine.Base.{
  ◌≡◌, ◌∙◌, refl, sym, ap, true, inl, inr, String, List, [], ◌∷◌, ◌++◌, map, Perm, All, All-append,
  arith, length-append, Option-cases, Bool-cases, string_eq, ◌is◌,
}
use mogtrade_engine.Base.Dict.{
  lookup, keys, keys-insert_old, keys-insert_new, Entries-insert, Entries-lookup, insert-IsDistinct,
}
use mogtrade_engine.Decimal.{Decimals}
use mogtrade_engine.Database.Enums.{side_sell}
use mogtrade_engine.Decimal.Laws.{zero_add}
use mogtrade_engine.Matching.Heap
use mogtrade_engine.Matching.Heap.{HeapOrder}
use mogtrade_engine.Matching.Heap.Contents.{push-perm, push-IsOrdered}
use mogtrade_engine.Matching.Book.{
  OrderEntry, Level, Ladder, OrderBook, PlaceMatchOrderParams, sell_price_list, buy_price_list,
  new_level, entry_of, enqueue, add_to, add_order, new_book,
}
use mogtrade_engine.Matching.Book.Valid.{
  sum_of, IsPositive, IsLevel, EntryIsLevel, IsLadder, IsBook,
}

module _ (d : Decimals) where
  open d use {Amount, zero_amount, add, less_than, string, add_comm, add_assoc, add_zero}

  pub sum_of-append :
      (xs ys : List (OrderEntry Amount)) → sum_of d (xs ++ ys) ≡ add (sum_of d xs) (sum_of d ys)
  unfolding sum_of
  sum_of-append [] ys = sym (zero_add d (sum_of d ys))
  sum_of-append (e ∷ es) ys = ap (add e.quantity) (sum_of-append es ys) ∙ sym (add_assoc _ _ _)

  sum_of-enqueue :
      (es : List (OrderEntry Amount)) (e : OrderEntry Amount)
      → sum_of d (es ++ e ∷ []) ≡ add (sum_of d es) e.quantity
  unfolding sum_of
  sum_of-enqueue es e = sum_of-append es (e ∷ []) ∙ ap (add (sum_of d es)) (add_zero e.quantity)

  module _ (p : PlaceMatchOrderParams Amount)
      (positive : less_than zero_amount p.quantity ≡ true) where
    abbrev key : String
    key = string p.price

    indexed_new :
        (prices : List Amount) (s : Ladder Amount)
        → Perm prices (p.price ∷ s.prices)
        → Perm (map string s.prices) (keys s.levels)
        → Perm (map string prices) (keys s.levels ++ key ∷ [])
    indexed_new prices s pushed indexed = Perm.trans (Perm.map string pushed) (
        Perm.trans (Perm.cons key indexed) (
          Perm.symm
            (rw (append-nil (keys s.levels)) at (perm_middle {a = key} (keys s.levels) []))))

    enqueue-IsLevel :
        (l : Level Amount)
        → l.total_volume ≡ sum_of d l.orders
        → All (IsPositive d) l.orders
        → IsLevel d (enqueue d l p)
    enqueue-IsLevel l volume old = record {
      waiting = omega (arith, length-append l.orders (entry_of d p ∷ []));
      volume = ap (λ v. add v p.quantity) volume ∙ sym (sum_of-enqueue l.orders (entry_of d p));
      positive = All-append (IsPositive d) l.orders (entry_of d p ∷ []) old (positive, tt);
    }

    pub add_to-IsLadder :
        (o : HeapOrder Amount) (s : Ladder Amount) → IsLadder d o s → IsLadder d o (add_to d o s p)
    unfolding add_to sum_of
    add_to-IsLadder o s v = elim (Option-cases (lookup (string p.price) s.levels)) [
      | inl fresh ↦
          rw (fresh, add_to)
            (record {
              ordered = push-IsOrdered o s.prices p.price v.ordered;
              indexed = rw (keys-insert_new key (enqueue d (new_level d) p) s.levels fresh) (
                  indexed_new (Heap.push o s.prices p.price) s (push-perm o s.prices p.price)
                    v.indexed);
              distinct = insert-IsDistinct key (enqueue d (new_level d) p) s.levels v.distinct;
              queued =
                  Entries-insert (EntryIsLevel d) key (enqueue d (new_level d) p) s.levels v.queued
                    (enqueue-IsLevel (new_level d) refl tt);
            })
      | inr (l, old) ↦
          let level = Entries-lookup (EntryIsLevel d) key l s.levels v.queued old in
          rw (old, add_to)
            (record {
              ordered = v.ordered;
              indexed = rw (keys-insert_old key (enqueue d l p) l s.levels old) v.indexed;
              distinct = insert-IsDistinct key (enqueue d l p) s.levels v.distinct;
              queued =
                  Entries-insert (EntryIsLevel d) key (enqueue d l p) s.levels v.queued
                    (enqueue-IsLevel l level.volume level.positive);
            })
    ]

  -- A new book is valid.
  pub new_book-IsBook : IsBook d (new_book d)
  unfolding keys
  new_book-IsBook = record {
    asks_valid = record {
      ordered = λ c p q. absurd (omega arith);
      indexed = Perm.refl [];
      distinct = tt;
      queued = tt;
    };
    bids_valid = record {
      ordered = λ c p q. absurd (omega arith);
      indexed = Perm.refl [];
      distinct = tt;
      queued = tt;
    };
  }

  -- AddOrder of a positive quantity keeps a book valid.
  pub add_order-IsBook :
      (b : OrderBook Amount) (p : PlaceMatchOrderParams Amount)
      → less_than zero_amount p.quantity ≡ true
      → IsBook d b
      → IsBook d (add_order d b p)
  unfolding add_order
  add_order-IsBook b p positive v = elim (Bool-cases (p.side is side_sell)) [
    | inl sell ↦ rw sell (record {
      asks_valid = add_to-IsLadder p positive (sell_price_list d) b.asks v.asks_valid;
      bids_valid = v.bids_valid;
    })
    | inr buy ↦ rw buy (record {
      asks_valid = v.asks_valid;
      bids_valid = add_to-IsLadder p positive (buy_price_list d) b.bids v.bids_valid;
    })
  ]
