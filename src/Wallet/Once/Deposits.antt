-- ===== src/Wallet/Once/Deposits.antt =====
-- Funding leaves a taken key taken (src/wallet/wallet.service.ts).
use oyana_backend.Base.{String, refl, ◌&&◌, Option, is_some}
use oyana_backend.Base.Int.{ℤ}
use oyana_backend.Value.{Value}
use oyana_backend.Wallet.Schema.{WalletAccount, PaymentIntent, PaymentIntentStatus, is_succeeded}
use oyana_backend.Db.{Db, intents}
use oyana_backend.Act.{find}
use oyana_backend.Act.Keeps.{
  Keeps, Keeps-bind, Keeps-find, Keeps-pure, Keeps-option, Keeps-if, Keeps-lift, Keeps-throw_if,
  Keeps-or_throw,
}
use oyana_backend.Wallet.Paystack.{Env}
use oyana_backend.Wallet.Funding.{
  CreateWalletFundingInput, create_wallet_funding, confirm_wallet_funding, verify_funding, fund,
  fund_into, fund_with_card, fund_by_checkout, create_intent, find_own_intent,
  replay_wallet_funding_response, truthy,
}
use oyana_backend.Wallet.Ledger.Accounts.{
  Keeps-random_uuid, Keeps-generate_reference, Keeps-assert_phone_verified,
  Keeps-normalize_currency, Keeps-require_profile, Keeps-initialize_transaction,
  Keeps-charge_authorization, Keeps-verify_transaction,
}
use oyana_backend.Wallet.Once.{
  K, Keeps-create, Keeps-get_or_create, Keeps-finalize_funding_intent, Keeps-mark_intent_failed,
}
use oyana_backend.Wallet.Once.Keys.{Keeps-with_idempotency}

module _ (o p k : String) (env : Env) where
  abbrev T : Db → Type 0
  T = K o p k env

  Keeps-find_own_intent : (owner reference : String) → Keeps T (find_own_intent owner reference)
  unfolding find_own_intent find
  Keeps-find_own_intent owner reference = record { at = λ w h. h }

  Keeps-replay_wallet_funding_response :
      (owner : String) (v : Value) → Keeps T (replay_wallet_funding_response owner v)
  unfolding replay_wallet_funding_response
  Keeps-replay_wallet_funding_response owner v = Keeps-bind _ _ (Keeps-or_throw _ _) λ reference.
      Keeps-bind _ _ (Keeps-find_own_intent owner reference) λ found.
        Keeps-bind _ _ (Keeps-or_throw found _)
          λ i. Keeps-bind _ _ (Keeps-find _ _) λ t. Keeps-pure _

  Keeps-create_intent :
      (id : String) (x : ℤ) (currency : String) (status : PaymentIntentStatus) (reference : String)
      (url : Option String) (raw : Value)
      → Keeps T (create_intent env id x currency status reference url raw)
  unfolding create_intent
  Keeps-create_intent id x currency status reference url raw =
      Keeps-bind _ _ (Keeps-random_uuid T env) λ u. Keeps-create o p k env intents (λ l d. refl) _ _

  Keeps-fund_with_card :
      (owner : String) (input : CreateWalletFundingInput) (currency : String) (a : WalletAccount)
      (email reference card : String)
      → Keeps T (fund_with_card env owner input currency a email reference card)
  unfolding fund_with_card
  Keeps-fund_with_card owner input currency a email reference card =
      Keeps-bind _ _ (Keeps-find _ _) λ found. Keeps-bind _ _ (Keeps-or_throw found _) λ c.
        Keeps-bind _ _ (Keeps-charge_authorization T env _) λ charged.
          Keeps-bind _ _ (Keeps-lift _) λ status.
            Keeps-bind _ _ (Keeps-create_intent _ _ _ _ _ _ _) λ i.
              Keeps-bind _ _
                (Keeps-if (is_succeeded status) _ _
                  (Keeps-finalize_funding_intent o p k env i.id charged _) (Keeps-pure _))
                λ r. Keeps-pure _

  pub Keeps-fund :
      (owner : String) (input : CreateWalletFundingInput) (currency : String)
      → Keeps T (fund env owner input currency)
  unfolding fund fund_into fund_by_checkout
  Keeps-fund owner input currency = Keeps-bind _ _ (Keeps-get_or_create o p k env owner) λ a.
      Keeps-bind _ _ (Keeps-require_profile T owner) λ profile.
        Keeps-bind _ _ (Keeps-generate_reference T env _) λ reference.
          Keeps-option (truthy input.saved_card_method_id) _ _
            (Keeps-bind _ _ (Keeps-initialize_transaction T env _)
              λ v. Keeps-bind _ _ (Keeps-create_intent _ _ _ _ _ _ _) λ i. Keeps-pure _)
            (λ card. Keeps-fund_with_card owner input currency a _ reference card)

  pub Keeps-create_wallet_funding :
      (owner : String) (input : CreateWalletFundingInput)
      → Keeps T (create_wallet_funding env owner input)
  unfolding create_wallet_funding
  Keeps-create_wallet_funding owner input =
      Keeps-bind _ _ (Keeps-assert_phone_verified T owner) λ u.
        Keeps-bind _ _ (Keeps-normalize_currency T input.currency) λ currency.
          Keeps-bind _ _ (Keeps-throw_if _ _) λ u.
            Keeps-with_idempotency o p k env owner _ _ _ _ _
              (Keeps-replay_wallet_funding_response owner) (Keeps-fund owner input currency)

  Keeps-verify_funding :
      (i : PaymentIntent) (reference : String) → Keeps T (verify_funding env i reference)
  unfolding verify_funding
  Keeps-verify_funding i reference = Keeps-bind _ _ (Keeps-verify_transaction T env reference) λ v.
      Keeps-bind _ _ (Keeps-lift _) λ status.
        Keeps-if (is_succeeded status) _ _ (Keeps-finalize_funding_intent o p k env i.id v _)
          (Keeps-bind _ _ (Keeps-mark_intent_failed o p k env i.id v) λ j. Keeps-pure _)

  pub Keeps-confirm_wallet_funding :
      (owner reference : String) → Keeps T (confirm_wallet_funding env owner reference)
  unfolding confirm_wallet_funding
  Keeps-confirm_wallet_funding owner reference =
      Keeps-bind _ _ (Keeps-assert_phone_verified T owner) λ u.
        Keeps-bind _ _ (Keeps-find_own_intent owner reference) λ found.
          Keeps-bind _ _ (Keeps-or_throw found _) λ i.
            Keeps-if (is_succeeded i.status && is_some i.confirmed_at) _ _
              (Keeps-bind _ _ (Keeps-find _ _) λ t. Keeps-pure _) (Keeps-verify_funding i reference)
