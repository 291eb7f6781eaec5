-- ===== src/Database/Rows.antt =====
-- infra/db/models.go: the rows of the tables of orders, executions and wallets. A nullable column
-- is an `Option`; an instant is a number.
use mogtrade_engine.Base.{ℕ, Option, String, List}
use mogtrade_engine.Decimal.{NullDecimal}
use mogtrade_engine.Database.Enums.{
  OrderSide, OrderType, OrderStatus, ExecutionStatus, TransactionStatus, WalletType,
}
use mogtrade_engine.Database.People.{KycRecord, User, Account, RefreshToken, Verification}

pub record Order (A : Type 0) : Type 0 where
  pub user_id : Option String
  pub symbol : String
  pub side : OrderSide
  pub order_type : OrderType
  pub quantity : A
  pub limit_price : NullDecimal A
  pub stop_price : NullDecimal A
  pub id : String
  pub client_order_id : Option String
  pub status : Option OrderStatus
  pub created_at : ℕ
  pub updated_at : ℕ
  pub tracing_id : String
  pub currency : String
  pub exchange_rate : A
  pub bid_transaction : Option String
  pub ask_wallet : Option String

pub record Execution (A : Type 0) : Type 0 where
  pub id : String
  pub match_quantity : A
  pub symbol : String
  pub user : Option String
  pub bid : Option String
  pub bid_price : A
  pub bid_status : OrderStatus
  pub bid_currency : String
  pub bid_exchange_rate_snapshot : A
  pub exec_value : A
  pub ask : Option String
  pub ask_price : A
  pub ask_status : OrderStatus
  pub ask_currency : String
  pub ask_exchange_rate_snapshot : A
  pub exec_status : ExecutionStatus
  pub recorded_at : ℕ
  pub updated_at : ℕ
  pub tracing_id : String
  pub ask_wallet : Option String
  pub bid_wallet : Option String
  pub wallets_type : WalletType

pub record Wallet (A : Type 0) : Type 0 where
  pub id : String
  pub owner : Option String
  pub starting_balance : NullDecimal A
  pub wallet_type : WalletType

pub record WalletSnapshot (A : Type 0) : Type 0 where
  pub wallet_id : String
  pub owner_id : Option String
  pub starting_balance : A
  pub current_balance : A
  pub total_transactions : ℕ
  pub last_activity_at : Option ℕ
  pub snapshot_created_at : ℕ
  pub wallet_type : WalletType

pub record WalletTransaction (A : Type 0) : Type 0 where
  pub id : String
  pub value : A
  pub src : Option String
  pub dest : Option String
  pub intent : Option String
  pub recorded_at : ℕ
  pub updated_at : ℕ
  pub extra_data : String
  pub idempotency_token : String
  pub done_by : Option String
  pub tracing_id : String
  pub currency : Option String
  pub exchange_rate : A
  pub status : TransactionStatus

-- A row of wallet_ledger_entries.
pub record LedgerEntry : Type 0 where
  pub wallet : Option String
  pub transaction : String
  pub notes : String
  pub recorded_at : ℕ

pub record Tables (A : Type 0) : Type 0 where
  pub orders : List (Order A)
  pub executions : List (Execution A)
  pub wallets : List (Wallet A)
  pub transactions : List (WalletTransaction A)
  pub entries : List LedgerEntry
  pub snapshots : List (WalletSnapshot A)
  pub kycs : List KycRecord
  pub users : List User
  pub accounts : List Account
  pub refresh_tokens : List RefreshToken
  pub verifications : List Verification
