-- ===== src/Wallet/Withdrawal/Destination.antt =====
-- Where a withdrawal goes in src/wallet/wallet.service.ts: a saved account, or one that Paystack
-- resolves, and saving it.
use oyana_backend.Base.{ℕ, String, Bool, true, false, ◌&&◌, Option, none, some, ◌==◌}
use oyana_backend.Base.Table.{find_first}
use oyana_backend.Wallet.Schema.{WalletSavedBankAccount}
use oyana_backend.Act.{not_found, Act, pure, or_throw, try_catch, find, create, update, ◌>>=◌}
use oyana_backend.Db.{bank_accounts}
use oyana_backend.Wallet.Paystack.{
  Env, PaystackBank, random_uuid, now, get_supported_banks, resolve_bank_account,
  create_transfer_recipient,
}
use oyana_backend.Wallet.Account.{mask_account_number}

pub record BankDestination : Type 0 where
  pub bank_code : String
  pub bank_name : String
  pub account_name : String
  pub account_number_masked : String
  pub recipient_code : String
  pub saved_bank_account_id : Option String
  pub persistable : Bool

unfoldable pub get_saved_bank_withdrawal_destination :
    String → String → String → Act BankDestination
get_saved_bank_withdrawal_destination owner wallet_account_id saved_bank_account_id = do
  found ← find bank_accounts (λ b.
      b.id == saved_bank_account_id
      && b.profile_id == owner
      && b.wallet_account_id == wallet_account_id)
  saved ← or_throw found (not_found "Saved withdrawal account not found")
  pure (record {
    bank_code = saved.bank_code;
    bank_name = saved.bank_name;
    account_name = saved.account_name;
    account_number_masked = saved.account_number_masked;
    recipient_code = saved.recipient_code;
    saved_bank_account_id = some saved.id;
    persistable = false;
  })

abbrev pub name_or : String → Option PaystackBank → String
name_or code none = code
name_or code (some bank) = bank.name

abbrev pub saved_row : String → String → String → BankDestination → ℕ → WalletSavedBankAccount
saved_row id owner wallet_id d time = record {
  id = id;
  profile_id = owner;
  wallet_account_id = wallet_id;
  bank_code = d.bank_code;
  bank_name = d.bank_name;
  account_number_masked = d.account_number_masked;
  account_name = d.account_name;
  recipient_code = d.recipient_code;
  last_used_at = some time;
}

module _ (env : Env) where
  -- `lookupBankName`: the code, where the bank is unknown or Paystack fails
  unfoldable pub lookup_bank_name : String → Act String
  lookup_bank_name bank_code =
      try_catch
        (do
          banks ← get_supported_banks env "NG"
          pure (name_or bank_code (find_first (λ b. b.code == bank_code) banks)))
        (λ e. pure bank_code)

  unfoldable pub get_raw_bank_withdrawal_destination :
      String → String → String → Act BankDestination
  get_raw_bank_withdrawal_destination bank_code account_number currency = do
    account_name ←
        resolve_bank_account env (record { account_number = account_number; bank_code = bank_code })
    recipient_code ← create_transfer_recipient env (record {
      account_name = account_name;
      account_number = account_number;
      bank_code = bank_code;
      currency = currency;
    })
    bank_name ← lookup_bank_name bank_code
    pure (record {
      bank_code = bank_code;
      bank_name = bank_name;
      account_name = account_name;
      account_number_masked = mask_account_number account_number;
      recipient_code = recipient_code;
      saved_bank_account_id = none;
      persistable = true;
    })

  unfoldable pub persist_saved_bank_account :
      String → String → BankDestination → Act WalletSavedBankAccount
  persist_saved_bank_account owner wallet_id d = do
    existing ← find bank_accounts (λ b.
        b.profile_id == owner
        && b.wallet_account_id == wallet_id
        && b.recipient_code == d.recipient_code)
    time ← now env
    elim existing [
      | some b ↦
          update bank_accounts (λ c. c.id == b.id)
            (λ c.
              saved_row c.id c.profile_id c.wallet_account_id
                (record d { recipient_code = c.recipient_code }) time)
      | none ↦ do
        id ← random_uuid env
        create bank_accounts (λ c. c.id == id) (saved_row id owner wallet_id d time)
    ]
