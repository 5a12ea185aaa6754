-- ===== src/Wallet/Account.antt =====
-- Profiles and wallet accounts in src/wallet/wallet.service.ts.
pub mod Compliance
use Prim.Native.String
use oyana_backend.Base.{
  ◌-◌, String, Bool, true, false, not, ◌&&◌, ◌||◌, Option, none, some, List, [], ◌∷◌, if◌then◌else◌,
  ⊤, ◌==◌, is_some, get_or, leb, nat_eq,
}
use oyana_backend.Base.Int.{pos}
use oyana_backend.Base.Text.{
  trim, to_upper, take_chars, drop_chars, keep_chars, chars_count, show_ℕ,
}
use oyana_backend.Profile.Enums.{UserType}
use oyana_backend.Profile.Roles.{has_any_profile_role, is_approved}
use oyana_backend.Profile.Onboarding.{is_driver, is_driver_onboarding_completed}
use oyana_backend.Wallet.Schema.{WalletAccount}
use oyana_backend.Profile.Schema.{Profile, role_shape, onboarding_shape}
use oyana_backend.User.{assert_driver_onboarding_complete}
use oyana_backend.Act.{
  Error, bad_request, forbidden, not_found, prisma, Act, pure, throw, or_throw, throw_if, try_catch,
  find, create, ◌>>=◌, ◌>>◌,
}
use oyana_backend.Db.{profiles, wallets}
use oyana_backend.Wallet.Paystack.{Env, random_uuid, now}

abbrev pub wallet_currency : String
wallet_currency = "NGN"

-- `a === b` for a column that may be null
abbrev pub is_text : Option String → String → Bool
is_text none s = false
is_text (some t) s = t == s

unfoldable pub require_profile : String → Act Profile
require_profile owner_profile_id = do
  found ← find profiles (λ p. p.id == owner_profile_id)
  profile ← or_throw found (not_found "Profile not found")
  (if has_any_profile_role (role_shape profile) (UserType.business ∷ [])
      then assert_driver_onboarding_complete owner_profile_id
      else pure tt)
  pure profile

unfoldable pub assert_phone_verified : String → Act ⊤
assert_phone_verified owner_profile_id = do
  profile ← require_profile owner_profile_id
  throw_if (not profile.phone_verified)
      (forbidden "Phone verification is required before wallet funding or withdrawal")

-- `phoneVerified`, `canFund`, `canWithdraw`, `blockReasons`
pub record WalletCompliance : Type 0 where
  pub phone_verified : Bool
  pub can_fund : Bool
  pub can_withdraw : Bool
  pub block_reasons : List String

abbrev pub is_nil : List String → Bool
is_nil [] = true
is_nil (x ∷ xs) = false

abbrev pub block_reasons_of : Bool → List String
block_reasons_of true = []
block_reasons_of false = "Phone verification is required before wallet funding or withdrawal" ∷ []

unfoldable pub get_wallet_compliance : String → Act WalletCompliance
get_wallet_compliance owner_profile_id = do
  found ← find profiles (λ p. p.id == owner_profile_id)
  profile ← or_throw found (not_found "Profile not found")
  let block_reasons = block_reasons_of profile.phone_verified
  pure (record {
    phone_verified = profile.phone_verified;
    can_fund = is_nil block_reasons;
    can_withdraw = is_nil block_reasons;
    block_reasons = block_reasons;
  })

unfoldable pub assert_wallet_ownership : String → String → Act ⊤
assert_wallet_ownership owner_profile_id wallet_account_id = do
  wallet ←
      find wallets (λ w. w.id == wallet_account_id && is_text w.owner_profile_id owner_profile_id)
  throw_if (not (is_some wallet)) (forbidden "You do not have access to this wallet account")

-- The columns' defaults are those of the schema.
abbrev pub new_wallet : String → String → WalletAccount
new_wallet id owner_id = record {
  id = id;
  owner_profile_id = some owner_id;
  currency = wallet_currency;
  balance_minor = pos 0;
  escrow_minor = pos 0;
  status = "active";
}

abbrev pub is_p2002 : Error → Bool
is_p2002 (prisma code) = code == "P2002"
is_p2002 _ = false

-- the `catch` of a lost race
unfoldable pub adopt_wallet : String → Error → Act WalletAccount
adopt_wallet owner_id e =
    if is_p2002 e
    then (do found ← find wallets (λ w. is_text w.owner_profile_id owner_id); or_throw found e)
    else throw e

module _ (env : Env) where
  unfoldable pub create_wallet : String → Act WalletAccount
  create_wallet owner_id = do
    id ← random_uuid env
    create wallets (λ w. w.id == id || is_text w.owner_profile_id owner_id) (new_wallet id owner_id)

  -- the wallet that is there, or a new one
  unfoldable pub open_wallet : String → Option WalletAccount → Act WalletAccount
  open_wallet owner_id (some wallet) = pure wallet
  open_wallet owner_id none = try_catch (create_wallet owner_id) (adopt_wallet owner_id)

  unfoldable pub get_or_create_wallet_account : String → Act WalletAccount
  get_or_create_wallet_account owner_id = do
    require_profile owner_id
    existing ← find wallets (λ w. is_text w.owner_profile_id owner_id)
    open_wallet owner_id existing

  -- `${prefix}_${Date.now()}_${randomUUID().replace(/-/g, '').slice(0, 10)}`
  unfoldable pub generate_reference : String → Act String
  generate_reference prefix = do
    time ← now env
    uuid ← random_uuid env
    pure (
        String.◌++◌ prefix (
          String.◌++◌ "_" (
            String.◌++◌ (show_ℕ time)
              (String.◌++◌ "_" (take_chars 10 (keep_chars (λ c. not (nat_eq c b'-')) uuid))))))

unfoldable pub normalize_currency : Option String → Act String
normalize_currency input_currency = do
  let currency = to_upper (trim (get_or input_currency wallet_currency))
  throw_if (not (currency == wallet_currency))
      (bad_request "Only NGN wallet currency is supported for now")
  pure currency

unfoldable pub get_funding_transaction_reference : String → String
get_funding_transaction_reference payment_intent_id = String.◌++◌ "WLT_TOPUP_" payment_intent_id

unfoldable pub get_withdrawal_debit_reference : String → String
get_withdrawal_debit_reference withdrawal_id = String.◌++◌ "WLT_WITHDRAW_" withdrawal_id

unfoldable pub get_withdrawal_reversal_reference : String → String
get_withdrawal_reversal_reference withdrawal_id = String.◌++◌ "WLT_WITHDRAW_REV_" withdrawal_id

-- the last four characters, `trimmed.slice(-4)`, of a longer number
unfoldable pub mask_account_number : String → String
mask_account_number account_number =
    let trimmed = trim account_number in
    if leb (chars_count trimmed) 4
    then String.◌++◌ "****" trimmed
    else String.◌++◌ "******" (drop_chars (chars_count trimmed - 4) trimmed)
