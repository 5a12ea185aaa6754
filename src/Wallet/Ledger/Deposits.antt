-- ===== src/Wallet/Ledger/Deposits.antt =====
-- Creating and confirming a funding keeps the wallet tables sound.
use oyana_backend.Base.{
  String, Bool, true, false, ◌≡◌, refl, Option, List, ◌∷◌, arith, ◌&&◌, is_some,
}
use oyana_backend.Base.Int.{ℤ, pos, ◌≤ℤ◌, leb_ℤ}
use oyana_backend.Value.{Value}
use oyana_backend.Wallet.Schema.{WalletAccount, PaymentIntent, PaymentIntentStatus, is_succeeded}
use oyana_backend.Db.{Db}
use oyana_backend.Act.{Act, Error, ◌>>=◌, find, throw_if}
use oyana_backend.Act.Keeps.{
  Keeps, Keeps-bind, Keeps-bind_post, Keeps-find, Keeps-pure, Keeps-option, Keeps-if, Keeps-lift,
  Keeps-or_throw,
}
use oyana_backend.Wallet.Paystack.{Env}
use oyana_backend.Wallet.Funding.{
  CreateWalletFundingInput, create_wallet_funding, confirm_wallet_funding, fund, fund_into, truthy,
  fund_with_card, fund_by_checkout, create_intent, replay_wallet_funding_response, find_own_intent,
  verify_funding,
}
use oyana_backend.Wallet.Ledger.{IsOwned}
use oyana_backend.Wallet.Ledger.Writes.{Fact, holds_wallet, Knows, Keeps-create_intent_row}
use oyana_backend.Wallet.Ledger.Accounts.{
  Keeps-random_uuid, Keeps-generate_reference, Keeps-require_profile, Keeps-assert_phone_verified,
  Keeps-normalize_currency, get_or_create_wallet_account-Triple, Keeps-initialize_transaction,
  Keeps-charge_authorization, Keeps-verify_transaction,
}
use oyana_backend.Wallet.Ledger.Funding.{Keeps-finalize_funding_intent, Keeps-mark_intent_failed}
use oyana_backend.Wallet.Ledger.Keys.{Keeps-with_idempotency}

module _ (ks : List Fact) (env : Env) where
  Keeps-find_own_intent :
      (owner reference : String) → Keeps (Knows ks) (find_own_intent owner reference)
  unfolding find_own_intent find
  Keeps-find_own_intent owner reference = record { at = λ w h. h }

  Keeps-replay_wallet_funding_response :
      (owner : String) (v : Value) → Keeps (Knows ks) (replay_wallet_funding_response owner v)
  unfolding replay_wallet_funding_response
  Keeps-replay_wallet_funding_response owner v = Keeps-bind _ _ (Keeps-or_throw _ _) λ reference.
      Keeps-bind _ _ (Keeps-find_own_intent owner reference) λ found.
        Keeps-bind _ _ (Keeps-or_throw found _)
          λ i. Keeps-bind _ _ (Keeps-find _ _) λ t. Keeps-pure _

  Keeps-create_intent :
      (k : String) (x : ℤ) (currency : String) (status : PaymentIntentStatus) (reference : String)
      (url : Option String) (raw : Value)
      → pos 1 ≤ℤ x
      → ((d : Db) → Knows ks d → IsOwned d.wallets k)
      → Keeps (Knows ks) (create_intent env k x currency status reference url raw)
  unfolding create_intent
  Keeps-create_intent k x currency status reference url raw positive owned =
      Keeps-bind _ _ (Keeps-random_uuid (Knows ks) env)
        λ id. Keeps-create_intent_row ks _ _ positive owned

  module _ (owner : String) (input : CreateWalletFundingInput)
      (positive : pos 1 ≤ℤ input.amount_minor) where
    Keeps-fund_with_card :
        (currency : String) (a : WalletAccount) (email reference card : String)
        → ((d : Db) → Knows ks d → IsOwned d.wallets a.id)
        → Keeps (Knows ks) (fund_with_card env owner input currency a email reference card)
    unfolding fund_with_card
    Keeps-fund_with_card currency a email reference card owned =
        Keeps-bind _ _ (Keeps-find _ _) λ found. Keeps-bind _ _ (Keeps-or_throw found _) λ c.
          Keeps-bind _ _ (Keeps-charge_authorization (Knows ks) env _) λ charged.
            Keeps-bind _ _ (Keeps-lift _) λ status.
              Keeps-bind _ _ (Keeps-create_intent _ _ _ _ _ _ _ positive owned) λ i.
                Keeps-bind _ _
                  (Keeps-if (is_succeeded status) _ _
                    (Keeps-finalize_funding_intent ks env i.id charged _) (Keeps-pure _))
                  λ r. Keeps-pure _

    Keeps-fund_by_checkout :
        (currency : String) (a : WalletAccount) (email reference : String)
        → ((d : Db) → Knows ks d → IsOwned d.wallets a.id)
        → Keeps (Knows ks) (fund_by_checkout env input currency a email reference)
    unfolding fund_by_checkout
    Keeps-fund_by_checkout currency a email reference owned =
        Keeps-bind _ _ (Keeps-initialize_transaction (Knows ks) env _)
          λ v. Keeps-bind _ _ (Keeps-create_intent _ _ _ _ _ _ _ positive owned) λ i. Keeps-pure _

module _ (ks : List Fact) (env : Env) where
  Keeps-fund_into :
      (owner : String) (input : CreateWalletFundingInput) (currency : String) (a : WalletAccount)
      → pos 1 ≤ℤ input.amount_minor
      → Keeps (Knows (holds_wallet a.id ∷ ks)) (fund_into env owner input currency a)
  unfolding fund_into
  Keeps-fund_into owner input currency a positive =
      let known = λ (d : Db) (h : Knows (holds_wallet a.id ∷ ks) d). h.1.0 in
      Keeps-bind _ _ (Keeps-require_profile _ owner) λ profile.
        Keeps-bind _ _ (Keeps-generate_reference _ env _) λ reference.
          Keeps-option (truthy input.saved_card_method_id) _ _
            (Keeps-fund_by_checkout (holds_wallet a.id ∷ ks) env owner input positive currency a _
              reference known)
            (λ card.
              Keeps-fund_with_card (holds_wallet a.id ∷ ks) env owner input positive currency a _
                reference card known)

  Keeps-fund :
      (owner : String) (input : CreateWalletFundingInput) (currency : String)
      → pos 1 ≤ℤ input.amount_minor
      → Keeps (Knows ks) (fund env owner input currency)
  unfolding fund
  Keeps-fund owner input currency positive =
      Keeps-bind_post _ _ _ (get_or_create_wallet_account-Triple ks env owner)
        λ a w h. let h' = (Keeps-fund_into owner input currency a positive).at w h in (h'.0, h'.1.1)

  -- A guard that throws: the rest may use that its test failed.
  pub Keeps-guard :
      {B : Type 0} (b : Bool) (e : Error) (m : Act B)
      → (b ≡ false → Keeps (Knows ks) m)
      → Keeps (Knows ks) (throw_if b e >>= λ u. m)
  unfolding ◌>>=◌
  Keeps-guard true e m km = record { at = λ w h. h }
  Keeps-guard false e m km = record { at = λ w h. (km refl).at w h }

  pub Keeps-create_wallet_funding :
      (owner : String) (input : CreateWalletFundingInput)
      → Keeps (Knows ks) (create_wallet_funding env owner input)
  unfolding create_wallet_funding
  Keeps-create_wallet_funding owner input =
      Keeps-bind _ _ (Keeps-assert_phone_verified _ owner) λ u.
        Keeps-bind _ _ (Keeps-normalize_currency _ input.currency) λ currency.
          Keeps-guard (leb_ℤ input.amount_minor (pos 0)) _ _ λ positive.
            Keeps-with_idempotency ks env owner _ _ _ _ _
              (Keeps-replay_wallet_funding_response ks env owner)
              (Keeps-fund owner input currency (ground arith))

  Keeps-verify_funding :
      (i : PaymentIntent) (reference : String) → Keeps (Knows ks) (verify_funding env i reference)
  unfolding verify_funding
  Keeps-verify_funding i reference = Keeps-bind _ _ (Keeps-verify_transaction _ env reference) λ v.
      Keeps-bind _ _ (Keeps-lift _) λ status.
        Keeps-if (is_succeeded status) _ _ (Keeps-finalize_funding_intent ks env i.id v _)
          (Keeps-bind _ _ (Keeps-mark_intent_failed ks env i.id v) λ j. Keeps-pure _)

  pub Keeps-confirm_wallet_funding :
      (owner reference : String) → Keeps (Knows ks) (confirm_wallet_funding env owner reference)
  unfolding confirm_wallet_funding
  Keeps-confirm_wallet_funding owner reference =
      Keeps-bind _ _ (Keeps-assert_phone_verified _ owner) λ u.
        Keeps-bind _ _ (Keeps-find_own_intent ks env owner reference) λ found.
          Keeps-bind _ _ (Keeps-or_throw found _) λ i.
            Keeps-if (is_succeeded i.status && is_some i.confirmed_at) _ _
              (Keeps-bind _ _ (Keeps-find _ _) λ t. Keeps-pure _) (Keeps-verify_funding i reference)
