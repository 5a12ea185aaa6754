-- ===== src/Wallet/Once/Requests.antt =====
-- Two withdrawals under one key: at most one of them has an effect, whatever comes between
-- (src/wallet/wallet.service.ts).
use oyana_backend.Base.{
  String, false, ◌≡◌, refl, ◌⊎◌, inl, inr, Option, none, some, List, [], ◌∷◌, ◌==◌, ◌||◌, subst,
}
use oyana_backend.Base.Text.{trim}
use oyana_backend.Value.{Value, get, read_string}
use oyana_backend.Db.{Db}
use oyana_backend.Act.{World}
use oyana_backend.Act.Keeps.{
  Keeps, Keeps-bind, Keeps-pure, Keeps-option, Keeps-if, Keeps-throw, Keeps-throw_if,
}
use oyana_backend.Act.Reads.{
  Reads, Reads-bind, Reads_then, Reads-find, Reads-if, Reads-throw_if, Reads-or_throw, Reads-pure,
}
use oyana_backend.Wallet.Paystack.{Env, verify_webhook_signature}
use oyana_backend.User.{assert_driver_onboarding_complete}
use oyana_backend.Wallet.Account.{assert_phone_verified, require_profile, normalize_currency}
use oyana_backend.Wallet.Withdrawal.{
  CreateWalletWithdrawalInput, create_wallet_withdrawal, replay_withdrawal,
}
use oyana_backend.Wallet.Webhook.{
  paystack_webhook, handle_paystack_webhook_event, handle_payload, handle_event, dispatch_event,
}
use oyana_backend.Wallet.Ledger.Requests.{Call, serve, serve_one}
use oyana_backend.Wallet.Once.{
  K, Taken, Keeps-get_or_create, Keeps-finalize_funding_by_reference,
  Keeps-mark_withdrawal_succeeded, Keeps-mark_withdrawal_failed_by_reference,
}
use oyana_backend.Wallet.Once.Keys.{IsUntouched, with_idempotency-Reads, with_idempotency-Takes}
use oyana_backend.Wallet.Once.Payouts.{Keeps-create_wallet_withdrawal, Keeps-withdraw}
use oyana_backend.Wallet.Once.Deposits.{Keeps-create_wallet_funding, Keeps-confirm_wallet_funding}

module _ (o p k : String) (env : Env) where
  abbrev T : Db → Type 0
  T = K o p k env

  Keeps-handle_payload :
      (event : Option String) (v : Option Value) → Keeps T (handle_payload env event v)
  unfolding handle_payload handle_event dispatch_event
  Keeps-handle_payload none v = Keeps-pure tt
  Keeps-handle_payload (some event) none = Keeps-pure tt
  Keeps-handle_payload (some event) (some v) =
      Keeps-option (read_string (get v "reference")) _ _ (Keeps-pure tt) λ reference.
        Keeps-if (event == "charge.success") _ _
          (Keeps-finalize_funding_by_reference o p k env reference v _)
          (Keeps-if (event == "transfer.success") _ _
            (Keeps-mark_withdrawal_succeeded o p k env reference v)
            (Keeps-if (event == "transfer.failed" || event == "transfer.reversed") _ _
              (Keeps-mark_withdrawal_failed_by_reference o p k env reference _ v) (Keeps-pure tt)))

  Keeps-verify_webhook_signature :
      (raw signature : String) → Keeps T (verify_webhook_signature env raw signature)
  unfolding verify_webhook_signature
  Keeps-verify_webhook_signature raw signature = Keeps-if (signature == "") _ _ (Keeps-pure false) (
      Keeps-option env.secret_key _ _ (Keeps-throw _)
        λ key. Keeps-if (key == "") _ _ (Keeps-throw _) (Keeps-pure _))

  Keeps-paystack_webhook :
      (payload : Value) (raw : String) (signature : Option String)
      → Keeps T (paystack_webhook env payload raw signature)
  unfolding paystack_webhook handle_paystack_webhook_event
  Keeps-paystack_webhook payload raw none = Keeps-throw _
  Keeps-paystack_webhook payload raw (some signature) =
      Keeps-if (signature == "") _ _ (Keeps-throw _) (
        Keeps-bind _ _ (Keeps-verify_webhook_signature raw signature)
          λ valid. Keeps-bind _ _ (Keeps-throw_if _ _) λ u. Keeps-handle_payload _ _)

  serve_one-Taken : (c : Call) (w : World) → T w.db → T (serve_one env c w).db
  serve_one-Taken (Call.open_wallet owner) w h = (Keeps-get_or_create o p k env owner).at w h
  serve_one-Taken (Call.fund owner input) w h =
      (Keeps-create_wallet_funding o p k env owner input).at w h
  serve_one-Taken (Call.confirm owner reference) w h =
      (Keeps-confirm_wallet_funding o p k env owner reference).at w h
  serve_one-Taken (Call.withdraw owner input) w h =
      (Keeps-create_wallet_withdrawal o p k env owner input).at w h
  serve_one-Taken (Call.webhook payload raw signature) w h =
      (Keeps-paystack_webhook payload raw signature).at w h

  pub serve-Taken : (cs : List Call) (w : World) → T w.db → T (serve env cs w).db
  unfolding serve
  serve-Taken [] w h = h
  serve-Taken (c ∷ cs) w h = serve-Taken cs (serve_one env c w) (serve_one-Taken c w h)

Reads-assert_driver : (id : String) (w : World) → Reads (assert_driver_onboarding_complete id) w
unfolding assert_driver_onboarding_complete
Reads-assert_driver id w =
    Reads-bind _ _ w (Reads-find _ _ w)
      λ found. Reads-bind _ _ w (Reads-or_throw found _ w) λ x. Reads-throw_if _ _ w

Reads-require_profile : (id : String) (w : World) → Reads (require_profile id) w
unfolding require_profile
Reads-require_profile id w = Reads-bind _ _ w (Reads-find _ _ w) λ found.
    Reads-bind _ _ w (Reads-or_throw found _ w) λ x.
      Reads-bind _ _ w (Reads-if _ _ _ w (Reads-assert_driver id w) (Reads-pure tt w))
        λ u. Reads-pure x w

pub Reads-assert_phone_verified : (id : String) (w : World) → Reads (assert_phone_verified id) w
unfolding assert_phone_verified
Reads-assert_phone_verified id w =
    Reads-bind _ _ w (Reads-require_profile id w) λ x. Reads-throw_if _ _ w

pub Reads-normalize_currency : (c : Option String) (w : World) → Reads (normalize_currency c) w
unfolding normalize_currency
Reads-normalize_currency c w = Reads-bind _ _ w (Reads-throw_if _ _ w) λ u. Reads-pure _ w

Reads-replay_withdrawal :
    (owner : String) (v : Value) (w : World) → Reads (replay_withdrawal owner v) w
unfolding replay_withdrawal
Reads-replay_withdrawal owner v w =
    Reads-bind _ _ w (Reads-or_throw _ _ w)
      λ id. Reads-bind _ _ w (Reads-find _ _ w) λ found. Reads-or_throw found _ w

abbrev operation : String
operation = "wallet_withdrawal_create"

module _ (env : Env) (owner : String) (input : CreateWalletWithdrawalInput) where
  withdrawal-Reads :
      (w : World)
      → Taken owner operation (trim input.idempotency_key) w.db
      → Reads (create_wallet_withdrawal env owner input) w
  unfolding create_wallet_withdrawal
  withdrawal-Reads w taken = Reads-bind _ _ w (Reads-assert_phone_verified owner w) λ u.
      Reads-bind _ _ w (Reads-normalize_currency input.currency w) λ currency.
        Reads-bind _ _ w (Reads-throw_if _ _ w) λ u. Reads-bind _ _ w (Reads-throw_if _ _ w) λ u.
          with_idempotency-Reads owner operation input.idempotency_key env _ _
            (Reads-replay_withdrawal owner) _ w taken

  abbrev Begun : World → World → Type 0
  Begun w w' = IsUntouched w w' ⊎ Taken owner operation (trim input.idempotency_key) w'.db

  withdrawal-Begun : (w : World) → Begun w (create_wallet_withdrawal env owner input w).1
  unfolding create_wallet_withdrawal
  withdrawal-Begun w =
      Reads_then (Begun w) _ _ w (Reads-assert_phone_verified owner w) (inl (refl, refl)) λ u.
        Reads_then (Begun w) _ _ w (Reads-normalize_currency input.currency w) (inl (refl, refl))
          λ currency. Reads_then (Begun w) _ _ w (Reads-throw_if _ _ w) (inl (refl, refl)) λ u.
            Reads_then (Begun w) _ _ w (Reads-throw_if _ _ w) (inl (refl, refl)) λ u.
              with_idempotency-Takes owner operation input.idempotency_key env _ _
                (Reads-replay_withdrawal owner) _ w
                (Keeps-withdraw owner operation (trim input.idempotency_key) env owner input
                  currency)

-- Of two withdrawals of one client under the same key, with any requests between them and whatever
-- the two ask for, the first leaves the database and the requests to Paystack as they were, or the
-- second leaves the world as it was.
pub create_wallet_withdrawal-once :
    (env : Env) (owner : String) (first second : CreateWalletWithdrawalInput) (between : List Call)
    (w : World)
    → trim first.idempotency_key ≡ trim second.idempotency_key
    → let w1 = (create_wallet_withdrawal env owner first w).1 in
      let w2 = serve env between w1 in
      IsUntouched w w1 ⊎ ((create_wallet_withdrawal env owner second w2).1 ≡ w2)
create_wallet_withdrawal-once env owner first second between w same_key =
    elim (withdrawal-Begun env owner first w) [
      | inl untouched ↦ inl untouched
      | inr taken ↦ inr (
          (withdrawal-Reads env owner second
            (serve env between (create_wallet_withdrawal env owner first w).1)
            (subst
              (λ key.
                Taken owner operation key
                  (serve env between (create_wallet_withdrawal env owner first w).1).db)
              same_key
              (serve-Taken owner operation (trim first.idempotency_key) env between _ taken))).same)
    ]
