-- ===== src/Orders/Insertion.antt =====
-- services/orders/service.go: the insert of CreateExecution, whose error is dropped.
use mogtrade_engine.Base.{
  arith, ℕ, ◌≡◌, ◌∙◌, refl, sym, ap, Bool, true, false, Option, none, some, inl, inr, String, [],
  ◌∷◌, ◌++◌, ◌⊎◌, Bool-cases, string_eq,
}
use mogtrade_engine.Decimal.{Decimals}
use mogtrade_engine.Database.Enums.{OrderStatus, execution_pending}
use mogtrade_engine.Database.Rows.{Order, Execution, Wallet, Tables}
use mogtrade_engine.Database.Table.{first_where, any_where}
use mogtrade_engine.Database.Session.{
  Session, Error, database_failed, unique_violation, Faulty, attempt, attempt-tables, attempted,
}
use mogtrade_engine.Database.Session.Rules.{
  Refused, Same, Holds, done, failed, Holds-after, dropped-Holds, write_unique-Holds,
}
use mogtrade_engine.Database.Orders.{has_id}
use mogtrade_engine.Database.Executions as Executions
use mogtrade_engine.Database.Executions.{
  executes, pairs, execution_exists, created_execution, execution_violates,
}
use mogtrade_engine.Database.Wallets.{source_of}
use mogtrade_engine.Orders.Service.{
  CreateExecutionParams, refused, insert_execution, execution_params,
}

module _ (d : Decimals) where
  open d use {Amount, mul}

  -- The pair of orders has an execution.
  abbrev pub is_executed : CreateExecutionParams Amount → Tables Amount → Bool
  is_executed p t = any_where (pairs (some p.ask) (some p.bid)) t.executions

  -- The execution that the orders of the tables give, and the tables with it.
  pub record IsRecorded (p : CreateExecutionParams Amount) (now : ℕ) (s : Tables Amount)
      (exec : Execution Amount) (t : Tables Amount) : Type 0 where
    pub bid : Order Amount
    pub ask : Order Amount
    pub bid_status : OrderStatus
    pub ask_status : OrderStatus
    pub wallet : Wallet Amount
    pub of_bid : first_where (has_id p.bid) s.orders ≡ some bid
    pub of_ask : first_where (has_id p.ask) s.orders ≡ some ask
    pub transaction : String
    pub of_transaction : bid.bid_transaction ≡ some transaction
    pub of_wallet : source_of s transaction ≡ some wallet
    pub at_bid : bid.status ≡ some bid_status
    pub at_ask : ask.status ≡ some ask_status
    pub fresh : any_where (executes p.id) s.executions ≡ false
    pub row : exec ≡ record {
      id = p.id;
      match_quantity = p.matched_quantity;
      symbol = bid.symbol;
      user = some p.user;
      bid = some p.bid;
      bid_price = bid.limit_price.decimal;
      bid_status = bid_status;
      bid_currency = bid.currency;
      bid_exchange_rate_snapshot = p.bid_exchange_rate;
      exec_value = mul (mul p.bid_exchange_rate bid.limit_price.decimal) p.matched_quantity;
      ask = some p.ask;
      ask_price = ask.limit_price.decimal;
      ask_status = ask_status;
      ask_currency = ask.currency;
      ask_exchange_rate_snapshot = p.ask_exchange_rate;
      exec_status = execution_pending;
      recorded_at = now;
      updated_at = now;
      tracing_id = p.tracing_id;
      ask_wallet = ask.ask_wallet;
      bid_wallet = some wallet.id;
      wallets_type = wallet.wallet_type;
    }
    pub tables : t ≡ record s { executions = s.executions ++ exec ∷ [] }

  -- Why an execution is not inserted.
  pub data NotInserted (p : CreateExecutionParams Amount) (s : Session Amount) : Type 0 where
    id_taken : any_where (executes p.id) s.tables.executions ≡ true → NotInserted p s
    no_wallet :
        (bid : Order Amount) (transaction : String)
        → first_where (has_id p.bid) s.tables.orders ≡ some bid
        → bid.bid_transaction ≡ some transaction
        → source_of s.tables transaction ≡ none
        → NotInserted p s
    not_carried_out : Faulty s → NotInserted p s

  -- The result when the insert worked, and when it did not: the zero value, and no error.
  abbrev pub Recorded :
      CreateExecutionParams Amount
      → Session Amount
      → Option (Execution Amount)
      → Session Amount
      → Type 0
  Recorded p s none t = (t.tables ≡ s.tables) × NotInserted p s
  Recorded p s (some exec) t = IsRecorded p s.now s.tables exec t.tables

  new_id :
      (q : Executions.CreateExecutionParams Amount) (t : Tables Amount)
      → execution_violates q t ≡ none
      → any_where (executes q.id) t.executions ≡ false
  unfolding execution_violates
  new_id q t none_taken = ground arith

  taken_id :
      (q : Executions.CreateExecutionParams Amount) (t : Tables Amount) (index : String)
      → any_where (pairs q.ask q.bid) t.executions ≡ false
      → execution_violates q t ≡ some index
      → any_where (executes q.id) t.executions ≡ true
  unfolding execution_violates
  taken_id q t index fresh taken = ground arith

  abbrev pub Unchanged : Session Amount → Error → Session Amount → Type 0
  Unchanged s e t = t.tables ≡ s.tables

  abbrev with_row : Executions.CreateExecutionParams Amount → ℕ → Tables Amount → Tables Amount
  with_row q now t = record t { executions = t.executions ++ created_execution now q ∷ [] }

  refused-Holds :
      {X : Type 0} (s : Session Amount) → Holds (λ (x : X) t. ⊥) (Unchanged s) (refused s)
  unfolding refused
  refused-Holds s = failed (elim (Bool-cases (attempt s).0) [
    | inl runs ↦ rw runs (attempt-tables s)
    | inr fails ↦ rw fails (attempt-tables s)
  ])

  -- The wallet that a transaction draws on, where it could be looked up.
  abbrev pub Draws : Session Amount → String → Option (Wallet Amount) → Session Amount → Type 0
  Draws s transaction none t = Same s t × ((source_of s.tables transaction ≡ none) ⊎ Faulty s)
  Draws s transaction (some wallet) t = Same s t × (source_of s.tables transaction ≡ some wallet)

  pub Draws-Same :
      (s : Session Amount) (transaction : String) (wallet : Option (Wallet Amount))
      (t : Session Amount)
      → Draws s transaction wallet t
      → Same s t
  Draws-Same s transaction none t h = h.0
  Draws-Same s transaction (some wallet) t h = h.0

  pub Draws-then :
      (s : Session Amount) (transaction : String) (wallet : Option (Wallet Amount))
      (t u : Session Amount)
      → Draws s transaction wallet t
      → Same s u
      → Draws s transaction wallet u
  Draws-then s transaction none t u h same = (same, h.1)
  Draws-then s transaction (some wallet) t u h same = (same, h.1)

  module _ (p : CreateExecutionParams Amount) (s : Session Amount) where
    not_inserted :
        (q : Executions.CreateExecutionParams Amount) (t : Session Amount) (s : Session Amount)
        → q.id ≡ p.id
        → any_where (pairs q.ask q.bid) s.tables.executions ≡ false
        → Same s t
        → (e : Error)
        → ((e ≡ database_failed) × Faulty t)
          ⊎ ((index : String) × (e ≡ unique_violation index)
              × (execution_violates q t.tables ≡ some index))
        → NotInserted p s
    not_inserted q t s named fresh same e (inl broken) = not_carried_out (same.faulty broken.1)
    not_inserted q t s named fresh same e (inr (index, e_is, taken)) =
        id_taken
          (rw (← same.tables, ← named) (taken_id q t.tables index (rw same.tables fresh) taken))

    pub insert-Recorded :
        (bid ask : Order Amount) (bid_status ask_status : OrderStatus) (transaction : String)
        (wallet : Option (Wallet Amount)) (t : Session Amount)
        → is_executed p s.tables ≡ false
        → Draws s transaction wallet t
        → bid.bid_transaction ≡ some transaction
        → first_where (has_id p.bid) s.tables.orders ≡ some bid
        → first_where (has_id p.ask) s.tables.orders ≡ some ask
        → bid.status ≡ some bid_status
        → ask.status ≡ some ask_status
        → Holds
            (Recorded p s)
            (Unchanged s)
            (attempted (insert_execution d p bid bid_status wallet ask ask_status) t)
    unfolding Executions.create_execution
    insert-Recorded bid ask bid_status ask_status transaction none t fresh same of_transaction
          of_bid of_ask at_bid at_ask =
        dropped-Holds _ (refused-Holds t) (λ e u kept. kept ∙ same.0.tables)
          (λ e u kept. (
            kept ∙ same.0.tables,
            elim same.1 [
              | inl missing ↦ no_wallet bid transaction of_bid of_transaction missing
              | inr fault ↦ not_carried_out fault
            ],
          ))
          (λ x u h. absurd h)
    insert-Recorded bid ask bid_status ask_status transaction (some wallet) t fresh same
          of_transaction of_bid of_ask at_bid at_ask =
        let q : Executions.CreateExecutionParams Amount =
          execution_params d p bid bid_status wallet ask ask_status in
        dropped-Holds {E = Refused (execution_violates q) t} {R = Recorded p s} {F = Unchanged s} _
          (Holds-after {F = Refused (execution_violates q) t} _ _
            (write_unique-Holds (execution_violates q) (with_row q) t) (λ e u stopped. stopped)
            (λ x u w. done (record {
              bid = bid;
              ask = ask;
              bid_status = bid_status;
              ask_status = ask_status;
              wallet = wallet;
              of_bid = of_bid;
              of_ask = of_ask;
              transaction = transaction;
              of_transaction = of_transaction;
              of_wallet = same.1;
              at_bid = at_bid;
              at_ask = at_ask;
              fresh =
                  ap (λ x. any_where (executes p.id) x.executions) (sym same.0.tables)
                  ∙ new_id q t.tables w.0;
              row = ap (λ n. created_execution n q) (w.1.1 ∙ same.0.now);
              tables = w.1.0 ∙ rw (w.1.1, same.0.tables) refl;
            })))
          (λ e u stopped. stopped.0.tables ∙ same.0.tables)
          (λ e u stopped.
            (stopped.0.tables ∙ same.0.tables, not_inserted q t s refl fresh same.0 e stopped.1))
          (λ x u h. h)
