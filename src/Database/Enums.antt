-- ===== src/Database/Enums.antt =====
-- infra/db/models.go: the enumerations. A column of an enumeration holds no other text, so those
-- are data types; a side or a type that comes from a request is a text, which may be any.
use mogtrade_engine.Base.{ℕ, ◌≡◌, arith, true, String, ◌==◌, Eq}

abbrev pub OrderSide : Type 0
OrderSide = String

abbrev pub side_sell : OrderSide
side_sell = "sell"

abbrev pub side_buy : OrderSide
side_buy = "buy"

abbrev pub OrderType : Type 0
OrderType = String

abbrev pub type_market : OrderType
type_market = "market"

abbrev pub type_stop : OrderType
type_stop = "stop"

abbrev pub type_stop_limit : OrderType
type_stop_limit = "stop_limit"

abbrev pub type_limit : OrderType
type_limit = "limit"

pub data OrderStatus : Type 0 where
  pending submitted partially_filled filled cancelled rejected expired : OrderStatus

pub data ExecutionStatus : Type 0 where
  execution_pending execution_failed execution_filled : ExecutionStatus

pub data TransactionStatus : Type 0 where
  transaction_processing transaction_failed transaction_cancelled transaction_completed
        transaction_created :
      TransactionStatus

pub data WalletType : Type 0 where
  wallet_real wallet_virtual : WalletType

-- Go compares the statuses as texts; different constants are different texts.
abbrev order_status_number : OrderStatus → ℕ
order_status_number pending = 0
order_status_number submitted = 1
order_status_number partially_filled = 2
order_status_number filled = 3
order_status_number cancelled = 4
order_status_number rejected = 5
order_status_number expired = 6

pub order_status_equal :
    (a b : OrderStatus) → (order_status_number a == order_status_number b) ≡ true → a ≡ b
order_status_equal a b h = ground arith

pub order_status_same :
    (a b : OrderStatus) → a ≡ b → (order_status_number a == order_status_number b) ≡ true
order_status_same a b same = rw same (ground arith)

instance abbrev pub order_status_eq : Eq OrderStatus
order_status_eq = record {
  beq = λ a b. order_status_number a == order_status_number b;
  beq_iff = λ a b. (order_status_equal a b, order_status_same a b);
}

abbrev execution_status_number : ExecutionStatus → ℕ
execution_status_number execution_pending = 0
execution_status_number execution_failed = 1
execution_status_number execution_filled = 2

pub execution_status_equal :
    (a b : ExecutionStatus)
    → (execution_status_number a == execution_status_number b) ≡ true
    → a ≡ b
execution_status_equal a b h = ground arith

pub execution_status_same :
    (a b : ExecutionStatus)
    → a ≡ b
    → (execution_status_number a == execution_status_number b) ≡ true
execution_status_same a b same = rw same (ground arith)

instance abbrev pub execution_status_eq : Eq ExecutionStatus
execution_status_eq = record {
  beq = λ a b. execution_status_number a == execution_status_number b;
  beq_iff = λ a b. (execution_status_equal a b, execution_status_same a b);
}

abbrev transaction_status_number : TransactionStatus → ℕ
transaction_status_number transaction_processing = 0
transaction_status_number transaction_failed = 1
transaction_status_number transaction_cancelled = 2
transaction_status_number transaction_completed = 3
transaction_status_number transaction_created = 4

pub transaction_status_equal :
    (a b : TransactionStatus)
    → (transaction_status_number a == transaction_status_number b) ≡ true
    → a ≡ b
transaction_status_equal a b h = ground arith

pub transaction_status_same :
    (a b : TransactionStatus)
    → a ≡ b
    → (transaction_status_number a == transaction_status_number b) ≡ true
transaction_status_same a b same = rw same (ground arith)

instance abbrev pub transaction_status_eq : Eq TransactionStatus
transaction_status_eq = record {
  beq = λ a b. transaction_status_number a == transaction_status_number b;
  beq_iff = λ a b. (transaction_status_equal a b, transaction_status_same a b);
}

abbrev wallet_type_number : WalletType → ℕ
wallet_type_number wallet_real = 0
wallet_type_number wallet_virtual = 1

pub wallet_type_equal :
    (a b : WalletType) → (wallet_type_number a == wallet_type_number b) ≡ true → a ≡ b
wallet_type_equal a b h = ground arith

pub wallet_type_same :
    (a b : WalletType) → a ≡ b → (wallet_type_number a == wallet_type_number b) ≡ true
wallet_type_same a b same = rw same (ground arith)

instance abbrev pub wallet_type_eq : Eq WalletType
wallet_type_eq = record {
  beq = λ a b. wallet_type_number a == wallet_type_number b;
  beq_iff = λ a b. (wallet_type_equal a b, wallet_type_same a b);
}

-- The text of a transaction's status.
abbrev pub transaction_status_text : TransactionStatus → String
transaction_status_text transaction_processing = "processing"
transaction_status_text transaction_failed = "failed"
transaction_status_text transaction_cancelled = "cancelled"
transaction_status_text transaction_completed = "completed"
transaction_status_text transaction_created = "created"
