-- ===== src/Controller/Finding.antt =====
-- app/controller/orders.go, handleFindOrders, and app/payloads/http/order.go, the orders as they are
-- sent. `atoi` is the value of strconv.Atoi, whose error is dropped.
pub mod Tests
use mogtrade_engine.Base.{
  ◌≡◌, ◌∙◌, ◌⊎◌, refl, ℕ, ◌≤◌, ◌<◌, ◌-◌, ◌%◌, ◌&&◌, true, false, not, inl, inr, Option, none, some,
  String, List, [], ◌∷◌, take, arith, Bool-cases, ltb, if◌then◌else◌, ◌is◌, string_eq,
}
use mogtrade_engine.Base.Int.{ℤ, pos, negsuc, ltb_ℤ}
use mogtrade_engine.Decimal.{NullDecimal}
use mogtrade_engine.Database.Enums.{OrderStatus}
use mogtrade_engine.Database.Rows.{Order}
use mogtrade_engine.Database.TextOrder.{TextOrder}
use mogtrade_engine.Database.Choosing.{Distinct, last_of}
use mogtrade_engine.Database.Paging.{rows_after, select_page, select_page-rows_after}
use mogtrade_engine.Database.Session.{Session, Result, ok, err, attempt, attempt-tables, read}
use mogtrade_engine.Database.Listing.{order_id, get_orders, refused}

pub record OrderPayload (A : Type 0) : Type 0 where
  pub id : String
  pub currency : String
  pub symbol : String
  pub side : String
  pub order_type : String
  pub quantity : A
  pub limit_price : NullDecimal A
  pub stop_price : NullDecimal A
  pub status : Option OrderStatus
  pub created_at : ℕ
  pub updated_at : ℕ

-- The answers of the handler: 200 with the orders and the next cursor, and 500.
pub data FindResponse (A : Type 0) : Type 0 where
  found : List (OrderPayload A) → String → FindResponse A
  find_failed : FindResponse A

-- int32(n)
unfoldable pub int32 : ℤ → ℤ
int32 (pos n) =
    let m = n % 4294967296 in if ltb m 2147483648 then pos m else negsuc (4294967295 - m)
int32 (negsuc n) =
    let m = n % 4294967296 in if ltb m 2147483648 then negsuc m else pos (4294967295 - m)

abbrev pub page_limit : ℤ → ℤ
page_limit asked = if ltb_ℤ (pos 100) asked then pos 100 else asked

-- DefaultQuery("limit", "100")
abbrev pub limit_text : Option String → String
limit_text none = "100"
limit_text (some text) = text

-- The number of rows that a request for `asked` of them gives, or none where the limit that reaches
-- the database is negative: it is the 32-bit value of what was asked for, or of 100.
pub data Page : ℤ → Option ℕ → Type 0 where
  as_asked : (n : ℕ) → n ≤ 100 → Page (pos n) (some n)
  capped : (n : ℕ) → 100 ≤ n → Page (pos n) (some 100)
  negative : (n : ℕ) → n % 4294967296 < 2147483648 → Page (negsuc n) none
  wrapped :
      (n size : ℕ)
      → 2147483648 ≤ n % 4294967296
      → size ≡ 4294967295 - n % 4294967296
      → Page (negsuc n) (some size)

abbrev size_of : ℤ → Option ℕ
size_of (pos n) = some n
size_of (negsuc n) = none

page_limit-Page : (asked : ℤ) → Page asked (size_of (int32 (page_limit asked)))
unfolding int32
page_limit-Page (pos n) = elim (Bool-cases (ltb_ℤ (pos 100) (pos n))) [
  | inl more ↦ rw more (capped n (ground arith))
  | inr small ↦
      let few : n ≤ 100 = ground arith in
      let same : n % 4294967296 ≡ n = omega arith in
      let fits : ltb n 2147483648 ≡ true = ground arith in rw (small, same, fits) (as_asked n few)
]
page_limit-Page (negsuc n) =
    let kept : ltb_ℤ (pos 100) (negsuc n) ≡ false = ground arith in
    elim (Bool-cases (ltb (n % 4294967296) 2147483648)) [
      | inl low ↦ rw (kept, low) (negative n (ground arith))
      | inr high ↦ rw (kept, high) (wrapped n _ (ground arith) refl)
    ]

module _ {A : Type 0} where
  unfoldable pub map_order_to_dto : Order A → OrderPayload A
  map_order_to_dto o = record {
    id = o.id;
    currency = o.currency;
    symbol = o.symbol;
    side = o.side;
    order_type = o.order_type;
    quantity = o.quantity;
    limit_price = o.limit_price;
    stop_price = o.stop_price;
    status = o.status;
    created_at = o.created_at;
    updated_at = o.updated_at;
  }

  unfoldable pub map_orders_to_dto : List (Order A) → List (OrderPayload A)
  map_orders_to_dto [] = []
  map_orders_to_dto (o ∷ os) = map_order_to_dto o ∷ map_orders_to_dto os

  unfoldable pub next_cursor : String → List (Order A) → String
  next_cursor cursor [] = ""
  next_cursor cursor (o ∷ os) =
      let last = (last_of o os).id in
      if not (last is cursor) && not (cursor is "") then last else ""

  unfoldable pub found_orders :
      String → Result (List (Order A)) × Session A → FindResponse A × Session A
  found_orders cursor (ok orders, t) =
      (found (map_orders_to_dto orders) (next_cursor cursor orders), t)
  found_orders cursor (err e, t) = (find_failed, t)

  unfoldable pub handle_find_orders :
      TextOrder → (String → ℤ) → String → Option String → Session A → FindResponse A × Session A
  handle_find_orders o atoi cursor limit s =
      found_orders cursor (get_orders o cursor (int32 (page_limit (atoi (limit_text limit)))) s)

  -- The next cursor is the id of the last order found, or empty: where no order was found, where
  -- the request had no cursor, and where the last order is that of the request's cursor.
  pub data IsNext (cursor : String) : List (Order A) → String → Type 0 where
    none_found : IsNext cursor [] ""
    first_page :
        (x : Order A) (xs : List (Order A)) → (cursor is "") ≡ true → IsNext cursor (x ∷ xs) ""
    stays :
        (x : Order A) (xs : List (Order A))
        → ((last_of x xs).id is cursor) ≡ true
        → IsNext cursor (x ∷ xs) ""
    next_is :
        (x : Order A) (xs : List (Order A))
        → (cursor is "") ≡ false
        → ((last_of x xs).id is cursor) ≡ false
        → IsNext cursor (x ∷ xs) (last_of x xs).id

  next_cursor-IsNext :
      (cursor : String) (orders : List (Order A)) → IsNext cursor orders (next_cursor cursor orders)
  unfolding next_cursor
  next_cursor-IsNext cursor [] = none_found
  next_cursor-IsNext cursor (x ∷ xs) = elim (Bool-cases (cursor is "")) [
    | inl first ↦ elim (Bool-cases ((last_of x xs).id is cursor)) [
      | inl stuck ↦ rw (first, stuck) (first_page x xs first)
      | inr moved ↦ rw (first, moved) (first_page x xs first)
    ]
    | inr later ↦ elim (Bool-cases ((last_of x xs).id is cursor)) [
      | inl stuck ↦ rw (later, stuck) (stays x xs stuck)
      | inr moved ↦ rw (later, moved) (next_is x xs later moved)
    ]
  ]

  module _ (o : TextOrder) (cursor : String) (asked : ℤ) (s : Session A) where
    pub data Listed : FindResponse A × Session A → Type 0 where
      refuses :
          (t : Session A)
          → Page asked none ⊎ ((attempt s).0 ≡ false)
          → t.tables ≡ s.tables
          → Listed (find_failed, t)
      lists :
          (n : ℕ) (orders : List (Order A)) (next : String) (t : Session A)
          → Page asked (some n)
          → orders ≡ take n (rows_after o order_id cursor s.tables.orders)
          → IsNext cursor orders next
          → t.tables ≡ s.tables
          → Listed (found (map_orders_to_dto orders) next, t)

    selected-Listed :
        (n : ℕ)
        → Page asked (some n)
        → Distinct order_id s.tables.orders
        → Listed (found_orders cursor (read (λ t. select_page o order_id cursor n t.orders) s))
    unfolding found_orders read
    selected-Listed n page distinct = elim (Bool-cases (attempt s).0) [
      | inr fails ↦
          rw (fails, found_orders, read) (refuses (attempt s).1 (inr fails) (attempt-tables s))
      | inl runs ↦
          let rows = select_page o order_id cursor n (attempt s).1.tables.orders in
          rw (runs, found_orders, read)
            (lists n rows (next_cursor cursor rows) (attempt s).1 page
              (rw (attempt-tables s)
                (select_page-rows_after o order_id cursor n s.tables.orders distinct))
              (next_cursor-IsNext cursor rows) (attempt-tables s))
    ]

    get_orders-Listed :
        (limit : ℤ)
        → Distinct order_id s.tables.orders
        → Page asked (size_of limit)
        → Listed (found_orders cursor (get_orders o cursor limit s))
    unfolding get_orders found_orders refused
    get_orders-Listed (pos n) distinct page = selected-Listed n page distinct
    get_orders-Listed (negsuc n) distinct page = refuses _ (inl page) (attempt-tables s)

  -- Where no two orders have the same id, the handler sends the first orders after the cursor, in
  -- the order of their ids: as many as were asked for and at most 100, or, below the least 32-bit
  -- number, as the wrapped limit says. The next cursor is the id of the last of them, and it is
  -- empty only where there are none, where the request had no cursor, or where that id is the
  -- cursor. The handler fails only on a limit that is negative as a 32-bit number, or when the
  -- statement is not carried out. No table changes.
  pub handle_find_orders-Listed :
      (o : TextOrder) (atoi : String → ℤ) (cursor : String) (limit : Option String) (s : Session A)
      → Distinct order_id s.tables.orders
      → Listed o cursor (atoi (limit_text limit)) s (handle_find_orders o atoi cursor limit s)
  unfolding handle_find_orders
  handle_find_orders-Listed o atoi cursor limit s distinct =
      get_orders-Listed o cursor (atoi (limit_text limit)) s _ distinct
        (page_limit-Page (atoi (limit_text limit)))
