-- ===== src/Wallet/Card.antt =====
-- The saved cards of src/wallet/wallet.service.ts: `upsertWalletCardMethod`.
use oyana_backend.Base.{ℕ, String, Bool, true, ◌||◌, Option, none, some, if◌then◌else◌, ⊤, ◌==◌}
use oyana_backend.Value.{Value, text, get}
use oyana_backend.Wallet.Schema.{WalletCardMethod}
use oyana_backend.Act.{Act, pure, find, create, update, ◌>>=◌, ◌>>◌}
use oyana_backend.Db.{cards}
use oyana_backend.Wallet.Paystack.{Env, random_uuid, now}

-- `upsertWalletCardMethod`: `reusable ?? true`, and the row by its authorization code
abbrev pub is_reusable : Value → Bool
is_reusable (Value.bool b) = b
is_reusable _ = true

abbrev pub card_row :
    String → String → String → String → Value → Value → Value → ℕ → WalletCardMethod
card_row id profile_id wallet_account_id code authorization customer_code metadata time = record {
  id = id;
  profile_id = profile_id;
  wallet_account_id = wallet_account_id;
  provider = "paystack";
  authorization_code = code;
  details = authorization;
  reusable = is_reusable (get authorization "reusable");
  customer_code = customer_code;
  metadata = metadata;
  last_used_at = some time;
}

-- `authorization?.authorization_code`, a text that is not empty
abbrev pub code_of : Value → Option String
code_of (text s) = if s == "" then none else some s
code_of _ = none

module _ (env : Env) where
  unfoldable pub save_card : String → String → Value → Value → String → Act ⊤
  save_card profile_id wallet_account_id verification metadata code = do
    existing ← find cards (λ c. c.authorization_code == code)
    time ← now env
    let authorization = get verification "authorization"
    let customer_code = get (get verification "customer") "customer_code"
    elim existing [
      | some card ↦ do
        update cards (λ c. c.id == card.id)
            (λ c.
              card_row c.id profile_id wallet_account_id c.authorization_code authorization
                customer_code metadata time)
        pure tt
      | none ↦ do
        id ← random_uuid env
        create cards (λ c. c.id == id || c.authorization_code == code)
            (card_row id profile_id wallet_account_id code authorization customer_code metadata
              time)
        pure tt
    ]

  unfoldable pub upsert_wallet_card_method : String → String → Value → Value → Act ⊤
  upsert_wallet_card_method profile_id wallet_account_id verification metadata =
      let authorization = get verification "authorization" in
      elim (code_of (get authorization "authorization_code")) [
        | none ↦ pure tt
        | some code ↦
            if is_reusable (get authorization "reusable")
            then save_card profile_id wallet_account_id verification metadata code
            else pure tt
      ]
