-- ===== src/Wallet/Schema.antt =====
-- The rows and tables of prisma/schemas/wallet.prisma that wallet.service.ts reads and writes. A table is the list of its rows, the newest first.
-- `createdAt` and `updatedAt` are not stored: the order of the list stands for them.
use oyana_backend.Base.{ℕ, String, Bool, true, false, Option}
use oyana_backend.Base.Int.{ℤ}
use oyana_backend.Value.{Value}

pub data TransactionDirection : Type 0 where
  credit debit : TransactionDirection

pub data TransactionType : Type 0 where
  topup withdrawal shipment_payment provider_payout commission refund adjustment : TransactionType

pub data TransactionStatus : Type 0 where
  pending completed failed reversed : TransactionStatus

pub data PaymentIntentStatus : Type 0 where
  initialized pending succeeded failed cancelled : PaymentIntentStatus

-- the texts that the service writes to `status` of a withdrawal, and `pending`, which it looks for
pub data WithdrawalStatus : Type 0 where
  processing pending succeeded reversed : WithdrawalStatus

-- likewise for idempotency keys
pub data KeyStatus : Type 0 where
  in_progress completed failed : KeyStatus

pub record WalletAccount : Type 0 where
  pub id : String
  pub owner_profile_id : Option String
  pub currency : String
  pub balance_minor : ℤ
  pub escrow_minor : ℤ
  pub status : String

pub record WalletTransaction : Type 0 where
  pub id : String
  pub wallet_account_id : String
  pub direction : TransactionDirection
  pub type : TransactionType
  pub status : TransactionStatus
  pub amount_minor : ℤ
  pub currency : String
  pub reference : String
  pub related_payment_intent_id : Option String
  pub metadata : Value

pub record PaymentIntent : Type 0 where
  pub id : String
  pub wallet_account_id : String
  pub provider : String
  pub amount_minor : ℤ
  pub currency : String
  pub status : PaymentIntentStatus
  pub paystack_reference : Option String
  pub authorization_url : Option String
  pub raw_init_response : Value
  pub raw_webhook : Value
  pub confirmed_at : Option ℕ

pub record WalletWithdrawal : Type 0 where
  pub id : String
  pub wallet_account_id : String
  pub profile_id : String
  pub reference : String
  pub amount_minor : ℤ
  pub currency : String
  pub status : WithdrawalStatus
  pub bank_code : Option String
  pub bank_name : Option String
  pub account_number_masked : Option String
  pub account_name : Option String
  pub recipient_code : Option String
  pub transfer_code : Option String
  pub paystack_transfer_id : Option String
  pub failure_reason : Option String
  pub raw_init_response : Value
  pub raw_webhook : Value
  pub completed_at : Option ℕ
  pub failed_at : Option ℕ
  pub saved_bank_account_id : Option String

pub record WalletCardMethod : Type 0 where
  pub id : String
  pub profile_id : String
  pub wallet_account_id : String
  pub provider : String
  pub authorization_code : String
  -- signature, card type, bank, country, brand, digits, expiry, channel: as Paystack sent them
  pub details : Value
  pub reusable : Bool
  pub customer_code : Value
  pub metadata : Value
  pub last_used_at : Option ℕ

pub record WalletSavedBankAccount : Type 0 where
  pub id : String
  pub profile_id : String
  pub wallet_account_id : String
  pub bank_code : String
  pub bank_name : String
  pub account_number_masked : String
  pub account_name : String
  pub recipient_code : String
  pub last_used_at : Option ℕ

pub record WalletIdempotencyKey : Type 0 where
  pub id : String
  pub profile_id : String
  pub operation : String
  pub key : String
  pub request_hash : String
  pub status : KeyStatus
  pub response : Option Value

-- the enums' `===`
abbrev pub is_credit : TransactionDirection → Bool
is_credit TransactionDirection.credit = true
is_credit TransactionDirection.debit = false

abbrev pub is_topup : TransactionType → Bool
is_topup TransactionType.topup = true
is_topup _ = false

abbrev pub is_completed : TransactionStatus → Bool
is_completed TransactionStatus.completed = true
is_completed _ = false

abbrev pub is_succeeded : PaymentIntentStatus → Bool
is_succeeded PaymentIntentStatus.succeeded = true
is_succeeded _ = false

abbrev pub is_failed : PaymentIntentStatus → Bool
is_failed PaymentIntentStatus.failed = true
is_failed _ = false

abbrev pub is_reversed : WithdrawalStatus → Bool
is_reversed WithdrawalStatus.reversed = true
is_reversed _ = false

abbrev pub is_open : WithdrawalStatus → Bool
is_open WithdrawalStatus.processing = true
is_open WithdrawalStatus.pending = true
is_open _ = false
