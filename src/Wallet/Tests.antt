-- ===== src/Wallet/Tests.antt =====
-- The wallet at concrete inputs: a client with a verified phone, and a Paystack that approves.
mod Run
mod Guards
mod Money
mod Twice
mod Retry
mod Once
use Prim.Native.String
use oyana_backend.Base.{◌≤◌, String, true, false, none, some, List, [], ◌∷◌}
use oyana_backend.Base.Int.{pos}
use oyana_backend.Base.Text.{show_ℕ}
use oyana_backend.Value.{Value, object, field, end, text, num}
use oyana_backend.Profile.Enums.{UserRole, AccountRole, AppMode}
use oyana_backend.Profile.Schema.{Profile}
use oyana_backend.Act.{World}
use oyana_backend.Wallet.Paystack.{Env, body}
use oyana_backend.Wallet.Account.{
  get_funding_transaction_reference, get_withdrawal_debit_reference,
  get_withdrawal_reversal_reference,
}
use oyana_backend.Wallet.Funding.{CreateWalletFundingInput}
use oyana_backend.Wallet.Withdrawal.{CreateWalletWithdrawalInput}
use oyana_backend.Wallet.Ledger.{IsSound}
use oyana_backend.Wallet.Ledger.Named.{count, credits, debits, repays}
use oyana_backend.Wallet.Ledger.Requests.{Call, serve, serve-IsSound, serve-posts_once}

abbrev approved_payment : Value
approved_payment = object (field "status" (text "success") (field "amount" (num (pos 5000)) end))

abbrev pub paystack : Env
paystack = record {
  secret_key = some "sk";
  number_of = λ x. x;
  post_initialize =
      λ n i. body true "" (object (field "authorization_url" (text "https://pay") end));
  post_charge = λ n i. body true "" approved_payment;
  get_verify = λ n r. body true "" approved_payment;
  get_banks = λ n c. body true "" (record { name = "First Bank"; code = "011" } ∷ []);
  get_resolve = λ n i. body true "" "ADA";
  post_recipient = λ n i. body true "" "RCP_1";
  post_transfer = λ n i. body true "" (record {
    id = some 7;
    transfer_code = some "TRF_1";
    reference = i.reference;
    status = some "pending";
    raw = object end;
  });
  hmac_sha512 = λ key raw. String.◌++◌ key raw;
  sha256 = λ s. s;
  uuid = show_ℕ;
  now = λ n. n;
  text_to_bigint = λ s. none;
  prisma_message = λ code. code;
  fallback_email_domain = none;
  wallet_callback_url = none;
}

abbrev pub ada : Profile
ada = record {
  id = "ada";
  email = some "ada@oyana.app";
  phone_e164 = some "+2348012345678";
  phone_verified = true;
  email_verified = true;
  role = some UserRole.shipper;
  account_role = AccountRole.user;
  active_app_mode = AppMode.shipper;
  driver_profile = none;
  notification_prompted_at = none;
  active_address_id = none;
  contact_for_providers = [];
  provider_members = [];
  notifications_enabled = false;
  push_permission_granted = false;
}

abbrev pub opened : World
opened = record {
  db = record {
    profiles = ada ∷ [];
    wallets = [];
    transactions = [];
    intents = [];
    withdrawals = [];
    cards = [];
    bank_accounts = [];
    keys = [];
    addresses = [];
    providers = [];
    members = [];
    platform_configs = [];
    shipments = [];
    items = [];
    events = [];
    milestones = [];
    bids = [];
    awards = [];
    batches = [];
    offers = [];
    assignments = [];
    notifications = [];
    devices = [];
  };
  asked = 0;
  sent = [];
  published = [];
}

abbrev pub topup : CreateWalletFundingInput
topup = record {
  amount_minor = pos 5000;
  currency = none;
  idempotency_key = "k1";
  saved_card_method_id = none;
  callback_url = none;
  metadata = none;
}

abbrev pub payout : CreateWalletWithdrawalInput
payout = record {
  amount_minor = pos 2000;
  currency = none;
  idempotency_key = "k2";
  reason = none;
  saved_bank_account_id = none;
  bank_code = some "011";
  account_number = some "0123456789";
  save_account = true;
}

-- the reference that the first funding gets from this Paystack's ids and times
abbrev pub topup_reference : String
topup_reference = "WLF_2_3"

abbrev pub requests : List Call
requests =
    Call.fund "ada" topup
    ∷ Call.confirm "ada" topup_reference
    ∷ Call.withdraw "ada" payout
    ∷ Call.webhook (object end) "{}" (some "forged")
    ∷ []

opened-IsSound : IsSound opened.db
opened-IsSound = record {
  wallets_sound = tt;
  transactions_owned = tt;
  references_distinct = tt;
  intents_sound = tt;
  withdrawals_sound = tt;
}

serve-IsSound_example : IsSound (serve paystack requests opened).db
serve-IsSound_example = serve-IsSound paystack requests opened opened-IsSound

serve-posts_once_example :
    let ts = (serve paystack requests opened).db.transactions in
    (count (credits "5") ts ≤ 1) × (count (debits "5") ts ≤ 1) × (count (repays "5") ts ≤ 1)
serve-posts_once_example = serve-posts_once paystack requests opened "5" opened-IsSound tt
