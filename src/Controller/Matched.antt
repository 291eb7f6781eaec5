-- ===== src/Controller/Matched.antt =====
-- app/controller/orders.go, handleOnMatchFoundEvent: what is done about one published match. The
-- currency converter's answer for the two currencies is a parameter, and so are the generated ids.
use mogtrade_engine.Base.{
  ⊤, ℕ, ◌≡◌, ◌∙◌, refl, ap, true, false, Option, none, some, String, arith, string_eq, ◌is◌,
  is_refl,
}
use mogtrade_engine.Decimal.{Decimals}
use mogtrade_engine.Database.Rows.{Order, Execution, Tables}
use mogtrade_engine.Database.Table.{first_where, any_where, first_where-none, first_where-last}
use mogtrade_engine.Database.Session.{
  Session, Query, Result, Error, ok, err, pure, attempted, after, ◌>>=◌, ◌>>◌,
}
use mogtrade_engine.Database.Session.Rules.{
  Holds, done, failed, Holds-after, dropped-Holds, one-Holds,
}
use mogtrade_engine.Database.Transaction.{with_transaction, with_transaction-Holds}
use mogtrade_engine.Database.Orders.{has_id, find_order_by_id}
use mogtrade_engine.Database.Executions.{executes}
use mogtrade_engine.Matching.Engine.{OrderMatchedEventArgs}
use mogtrade_engine.Orders.Service.{CreateExecutionParams, create_execution, apply_execution_fill}
use mogtrade_engine.Orders.Insertion.{IsRecorded, Recorded}
use mogtrade_engine.Orders.Recording.{create_execution-records}
use mogtrade_engine.Orders.Executing.{IsApplied, apply_execution_fill-IsApplied}

module _ (d : Decimals) where
  open d use {Amount}

  abbrev pub matched_params :
      OrderMatchedEventArgs Amount
      → String
      → String
      → String
      → Amount × Amount
      → CreateExecutionParams Amount
  matched_params event exec_id user tracing_id rates = record {
    id = exec_id;
    bid = event.bid;
    ask = event.ask;
    user = user;
    tracing_id = tracing_id;
    matched_quantity = event.match_quantity;
    bid_exchange_rate = rates.0;
    ask_exchange_rate = rates.1;
  }

  module _ (rates : String → String → Result (Amount × Amount)) (user exec_id tracing_id : String)
      (event : OrderMatchedEventArgs Amount) where
    -- The error of CreateExecution is overwritten by that of the next call; a panic is not.
    unfoldable pub match_found : Query Amount String
    match_found = do
      bid ← find_order_by_id event.bid
      ask ← find_order_by_id event.ask
      both ← λ s. (rates bid.currency ask.currency, s)
      attempted (create_execution d (matched_params event exec_id user tracing_id both))
      apply_execution_fill d exec_id
      pure exec_id

    -- The execution of the match is recorded, with the rates of the currencies of its two orders,
    -- and then applied.
    pub record IsExecuted (s t : Tables Amount) : Type 0 where
      pub rates_used : Amount × Amount
      pub recorded_at : ℕ
      pub applied_at : ℕ
      pub between : Tables Amount
      pub exec : Execution Amount
      pub recorded :
          IsRecorded d
            (matched_params event exec_id user tracing_id rates_used)
            recorded_at
            s
            exec
            between
      pub of_bid : exec.bid ≡ some event.bid
      pub of_ask : exec.ask ≡ some event.ask
      pub quantity : exec.match_quantity ≡ event.match_quantity
      pub bid_rate : exec.bid_exchange_rate_snapshot ≡ rates_used.0
      pub ask_rate : exec.ask_exchange_rate_snapshot ≡ rates_used.1
      pub rated : rates recorded.bid.currency recorded.ask.currency ≡ ok rates_used
      pub applied : IsApplied d exec_id applied_at between t
      pub same : applied.exec ≡ exec

    abbrev NothingSaid : Error → Session Amount → Type 0
    NothingSaid e t = ⊤

    answered :
        (r : Result (Amount × Amount)) (s : Session Amount)
        → Holds (λ x t. (t ≡ s) × (r ≡ ok x)) NothingSaid (r, s)
    answered (ok x) s = done (refl, refl)
    answered (err e) s = failed tt

    -- The rates are those of the currencies of the two orders.
    pub record AreRates (used : Amount × Amount) (s : Tables Amount) : Type 0 where
      pub bid : Order Amount
      pub ask : Order Amount
      pub of_bid : first_where (has_id event.bid) s.orders ≡ some bid
      pub of_ask : first_where (has_id event.ask) s.orders ≡ some ask
      pub rated : rates bid.currency ask.currency ≡ ok used

    found_once : {X : Type 0} {o : Option X} {x y : X} → o ≡ some x → o ≡ some y → x ≡ y
    found_once h k = ground (arith, h, k)

    -- The new execution is the one that is applied.
    new_applied :
        (used : Amount × Amount) (recorded_at applied_at : ℕ) (s between t : Tables Amount)
        (exec : Execution Amount)
        → AreRates used s
        → IsRecorded d
            (matched_params event exec_id user tracing_id used)
            recorded_at
            s
            exec
            between
        → IsApplied d exec_id applied_at between t
        → IsExecuted s t
    new_applied used recorded_at applied_at s between t exec known recorded applied = record {
      rates_used = used;
      recorded_at = recorded_at;
      applied_at = applied_at;
      between = between;
      exec = exec;
      recorded = recorded;
      of_bid = rw recorded.row refl;
      of_ask = rw recorded.row refl;
      quantity = rw recorded.row refl;
      bid_rate = rw recorded.row refl;
      ask_rate = rw recorded.row refl;
      rated =
          rw (found_once recorded.of_bid known.of_bid, found_once recorded.of_ask known.of_ask)
            known.rated;
      applied = applied;
      same =
          let named : (exec.id is exec_id) ≡ true = rw recorded.row (is_refl exec_id) in
          let last = first_where-last (executes exec_id) s.executions exec recorded.fresh named in
          ground (arith, applied.found, rw recorded.tables at applied.found, last);
    }

    not_there :
        (s t : Tables Amount) (applied_at : ℕ)
        → any_where (executes exec_id) s.executions ≡ false
        → IsApplied d exec_id applied_at s t
        → ⊥
    not_there s t applied_at fresh applied =
        ground (arith, applied.found, first_where-none (executes exec_id) s.executions fresh)

    abbrev AfterCreate :
        Amount × Amount
        → Session Amount
        → Option (Option (Execution Amount))
        → Session Amount
        → Type 0
    AfterCreate used s none t = t.tables ≡ s.tables
    AfterCreate used s (some r) t =
        Recorded d (matched_params event exec_id user tracing_id used) s r t

    applies :
        (used : Amount × Amount) (s t : Session Amount) (r : Option (Option (Execution Amount)))
        → any_where (executes exec_id) s.tables.executions ≡ false
        → AreRates used s.tables
        → AfterCreate used s r t
        → Holds
            (λ x u. IsExecuted s.tables u.tables)
            NothingSaid
            (after (apply_execution_fill d exec_id t) (λ _. pure exec_id))
    applies used s t none fresh known kept =
        Holds-after _ _ (apply_execution_fill-IsApplied d exec_id t) (λ e u h. tt)
          (λ x u h. absurd (not_there s.tables u.tables t.now fresh (rw (← kept) h)))
    applies used s t (some none) fresh known (kept, why) =
        Holds-after _ _ (apply_execution_fill-IsApplied d exec_id t) (λ e u h. tt)
          (λ x u h. absurd (not_there s.tables u.tables t.now fresh (rw (← kept) h)))
    applies used s t (some (some exec)) fresh known recorded =
        Holds-after _ _ (apply_execution_fill-IsApplied d exec_id t) (λ e u h. tt)
          (λ x u h.
            done (new_applied used s.now t.now s.tables t.tables u.tables exec known recorded h))

    match_found-IsExecuted :
        (s : Session Amount)
        → any_where (executes exec_id) s.tables.executions ≡ false
        → Holds (λ x t. IsExecuted s.tables t.tables) NothingSaid (match_found s)
    unfolding match_found find_order_by_id
    match_found-IsExecuted s fresh =
        Holds-after _ _ (one-Holds (λ x. first_where (has_id event.bid) x.orders) s) (λ e t h. tt)
          (λ bid t found_bid.
            Holds-after _ _ (one-Holds (λ x. first_where (has_id event.ask) x.orders) t)
              (λ e u h. tt)
              (λ ask u found_ask.
                Holds-after _ _ (answered (rates bid.currency ask.currency) u) (λ e v h. tt)
                  (λ used v same.
                    let kept : v.tables ≡ s.tables =
                      ap (λ x. x.tables) same.0 ∙ found_ask.0.tables ∙ found_bid.0.tables in
                    let known : AreRates used s.tables = record {
                      bid = bid;
                      ask = ask;
                      of_bid = found_bid.1;
                      of_ask = rw (← found_bid.0.tables) found_ask.1;
                      rated = same.1;
                    } in
                    Holds-after {F = NothingSaid} _ _
                      (dropped-Holds {R = AfterCreate used v} {F = NothingSaid} _
                        (create_execution-records d
                          (matched_params event exec_id user tracing_id used) v)
                        (λ e w h. tt) (λ e w h. h) (λ r w h. h.1))
                      (λ e w h. tt)
                      (λ r w h.
                        rw (← kept) (applies used v w r (rw kept fresh) (rw kept known) h)))))

    -- On a match with an execution id that is new, the handler's transaction succeeds only when an
    -- execution of the matched quantity is recorded for the two orders, with the rates of their
    -- currencies, and that very execution is then applied: it is marked filled, and its quantity
    -- goes to each of the two orders that is submitted, an order with another status staying as
    -- it is. When the transaction fails, nothing is changed.
    pub match_found-executes :
        (s : Session Amount)
        → any_where (executes exec_id) s.tables.executions ≡ false
        → Holds
            (λ x t. IsExecuted s.tables t.tables)
            (λ e t. t.tables ≡ s.tables)
            (with_transaction match_found s)
    match_found-executes s fresh =
        with_transaction-Holds (λ x t. IsExecuted s.tables t) match_found s
          (λ from begun. rw (← begun.tables) (match_found-IsExecuted from (rw begun.tables fresh)))
