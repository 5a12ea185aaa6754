-- ===== src/Wallet/Finalize/Credit.antt =====
-- What finalising an intent does to the balances, on every branch
-- (`finalizeFundingIntent` of src/wallet/wallet.service.ts).
use oyana_backend.Base.{
  ◌⊎◌, String, Option, Bool, true, false, ◌||◌, ◌≡◌, refl, none, some, List, if◌then◌else◌, ◌==◌,
  Bool-cases, Option-cases, inl, inr,
}
use oyana_backend.Base.Int.{◌+ℤ◌}
use oyana_backend.Base.Table.{find_first, update_where, exists, exists-or, exists-none, exists-some}
use oyana_backend.Value.{Value, get, read_string}
use oyana_backend.Wallet.Schema.{
  WalletAccount, WalletTransaction, PaymentIntent, PaymentIntentStatus, is_succeeded,
}
use oyana_backend.Db.{Db}
use oyana_backend.Act.{
  World, transaction, Result, bad_request, ok, err, lift, ◌>>=◌, pure, find, create, update,
  try_catch, ask, is_unique_constraint_error,
}
use oyana_backend.Act.Ends.{Ends, Ends-bind, Ends-Keeps, Whole, Whole-bind, transaction-Whole}
use oyana_backend.Wallet.Paystack.{Env, random_uuid, now}
use oyana_backend.Wallet.Account.Compliance.{IsRefused}
use oyana_backend.Wallet.Account.{get_funding_transaction_reference}
use oyana_backend.Wallet.Finalize.{
  is_funding_of, settle_topup, credit_topup, adopt_topup, mark_intent_succeeded, mark_intent_failed,
  remember_card, is_intent, check_verification, finalize_found, finalize_in_transaction,
  finalize_funding_intent, WalletFundingResult, amount_mismatch, verified_currency,
}
use oyana_backend.Wallet.Paystack.Status.{
  map_paystack_status_to_payment_intent_status, extract_paystack_amount,
}
use oyana_backend.Wallet.Finalize.Frame.{Keeps-remember_card}

abbrev has_funding_reference : String → WalletTransaction → Bool
has_funding_reference id t = t.reference == get_funding_transaction_reference id

-- a credit of the intent, or a transaction with the credit's reference
abbrev pub is_credited : String → List WalletTransaction → Bool
is_credited id ts = exists (is_funding_of id) ts || exists (has_funding_reference id) ts

abbrev pub add_amount : PaymentIntent → List WalletAccount → List WalletAccount
add_amount i ws =
    update_where (λ w. w.id == i.wallet_account_id)
      (λ w. record w { balance_minor = w.balance_minor +ℤ i.amount_minor }) ws

abbrev pub credited_wallets : PaymentIntent → Db → List WalletAccount
credited_wallets i d = if is_credited i.id d.transactions then d.wallets else add_amount i d.wallets

module _ (env : Env) where
  settle_topup-Ends :
      (source : String) (i : PaymentIntent) (w : World)
      → exists (λ t. t.id == env.uuid w.asked) w.db.transactions ≡ false
      → Ends (λ t d. d.wallets ≡ credited_wallets i w.db) (settle_topup env source i w)
  unfolding settle_topup credit_topup adopt_topup ◌>>=◌ find create update try_catch random_uuid ask
      is_unique_constraint_error
  settle_topup-Ends source i w fresh =
      let clash =
        exists-or (λ (t : WalletTransaction). t.id == env.uuid w.asked) (has_funding_reference i.id)
          w.db.transactions in
      elim (Option-cases (find_first (is_funding_of i.id) w.db.transactions)) [
        | inr (t, e) ↦ rw (e, exists-some _ _ _ e) refl
        | inl e ↦ elim (Bool-cases (exists (has_funding_reference i.id) w.db.transactions)) [
          | inl taken ↦ rw (e, clash, fresh, taken, exists-none _ _ e) (rw taken refl)
          | inr new ↦
              elim (Option-cases (find_first (λ a. a.id == i.wallet_account_id) w.db.wallets)) [
                | inl gone ↦ rw (e, clash, fresh, new, gone) tt
                | inr (a, found) ↦ rw (e, clash, fresh, new, found, exists-none _ _ e) (rw new refl)
              ]
        ]
      ]

  abbrev Credited : PaymentIntent → Db → PaymentIntent × Option WalletTransaction → Db → Type 0
  Credited i before x d =
      d.wallets ≡ (if is_succeeded x.0.status then credited_wallets i before else before.wallets)

  mark_intent_succeeded-Ends :
      (ws : List WalletAccount) (id : String) (v : Value) (w : World)
      → w.db.wallets ≡ ws
      → Ends
          (λ j d. (is_succeeded j.status ≡ true) × (d.wallets ≡ ws))
          (mark_intent_succeeded env id v w)
  unfolding mark_intent_succeeded ◌>>=◌ update ask now
  mark_intent_succeeded-Ends ws id v w h =
      elim (Option-cases (find_first (is_intent id) w.db.intents)) [
        | inl gone ↦ rw gone tt
        | inr (j, found) ↦ rw found (refl, h)
      ]

  mark_intent_failed-Ends :
      (ws : List WalletAccount) (id : String) (v : Value) (w : World)
      → w.db.wallets ≡ ws
      → Ends (λ j d. (is_succeeded j.status ≡ false) × (d.wallets ≡ ws)) (mark_intent_failed id v w)
  unfolding mark_intent_failed update
  mark_intent_failed-Ends ws id v w h =
      elim (Option-cases (find_first (is_intent id) w.db.intents)) [
        | inl gone ↦ rw gone tt
        | inr (j, found) ↦ rw found (refl, h)
      ]

  -- the writes after the credit
  close_intent-Ends :
      (before : Db) (i : PaymentIntent) (v : Value) (source : String) (t : Option WalletTransaction)
      (w : World)
      → w.db.wallets ≡ credited_wallets i before
      → Ends (Credited i before) (
          (mark_intent_succeeded env i.id v >>= λ j.
          remember_card env i v source >>= λ u. pure (j, t))
            w)
  unfolding ◌>>=◌
  close_intent-Ends before i v source t w h =
      Ends-bind (Credited i before)
        (λ j d. (is_succeeded j.status ≡ true) × (d.wallets ≡ credited_wallets i before))
        (mark_intent_succeeded env i.id v) _ w
        (mark_intent_succeeded-Ends (credited_wallets i before) i.id v w h)
        λ j w' (done, same).
          Ends-bind (Credited i before) (λ u d. d.wallets ≡ credited_wallets i before)
            (remember_card env i v source) (λ u. pure (j, t)) w'
            (Ends-Keeps (λ d. d.wallets ≡ credited_wallets i before) _ w'
              (Keeps-remember_card (λ d. d.wallets ≡ credited_wallets i before) env (λ l d h. h) i v
                source)
              same)
            λ u w'' same'. rw done same'

  check_verification-cases :
      (i : PaymentIntent) (v : Value) (w : World)
      → (check_verification env i v w ≡ (ok tt, w)) ⊎ IsRefused (check_verification env i v w) w
  unfolding check_verification ◌>>=◌
  check_verification-cases i v w =
      elim (Bool-cases (
        amount_mismatch (extract_paystack_amount env.text_to_bigint (get v "amount"))
          i.amount_minor)) [
            | inl a ↦ rw a (
                inr (
                  bad_request "Funding verification amount does not match initialized amount",
                  refl,
                ))
            | inr a ↦
                elim (Bool-cases
                  (verified_currency (read_string (get v "currency")) i.currency == i.currency)) [
                    | inl c ↦ rw (a, c) (inl refl)
                    | inr c ↦
                        rw (a, c)
                          (inr (
                            bad_request
                                "Funding verification currency does not match initialized currency",
                            refl,
                          ))
                  ]
          ]

  pay_in-Ends :
      (i : PaymentIntent) (v : Value) (source : String) (w : World)
      → exists (λ t. t.id == env.uuid w.asked) w.db.transactions ≡ false
      → Ends (Credited i w.db) (
          (check_verification env i v >>= λ u. settle_topup env source i >>= λ t.
          mark_intent_succeeded env i.id v >>= λ j.
          remember_card env i v source >>= λ u. pure (j, t))
            w)
  unfolding ◌>>=◌
  pay_in-Ends i v source w fresh = elim (check_verification-cases i v w) [
    | inr (e, refused) ↦ rw refused tt
    | inl passed ↦ rw passed (
        Ends-bind (Credited i w.db) (λ t d. d.wallets ≡ credited_wallets i w.db)
          (settle_topup env source i) _ w (settle_topup-Ends source i w fresh)
          λ t w' same. close_intent-Ends w.db i v source t w' same)
  ]

  by_status-Ends :
      (r : Result PaymentIntentStatus) (i : PaymentIntent) (v : Value) (source : String) (w : World)
      → exists (λ t. t.id == env.uuid w.asked) w.db.transactions ≡ false
      → Ends (Credited i w.db) (
          (lift r >>= λ s.
          if is_succeeded s
          then (check_verification env i v >>= λ u. settle_topup env source i >>= λ t.
              mark_intent_succeeded env i.id v >>= λ j.
              remember_card env i v source >>= λ u. pure (j, t))
          else (mark_intent_failed i.id v >>= λ j. pure (j, none)))
            w)
  unfolding ◌>>=◌
  by_status-Ends (err e) i v source w fresh = tt
  by_status-Ends (ok s) i v source w fresh = elim (Bool-cases (is_succeeded s)) [
    | inl y ↦ rw y (pay_in-Ends i v source w fresh)
    | inr n ↦ rw n (
        Ends-bind (Credited i w.db) _ (mark_intent_failed i.id v) (λ j. pure (j, none)) w
          (mark_intent_failed-Ends w.db.wallets i.id v w refl) λ j w' (no', same). rw no' same)
  ]

  finalize_in_transaction-Ends :
      (i : PaymentIntent) (v : Value) (source : String) (w : World)
      → find_first (is_intent i.id) w.db.intents ≡ some i
      → exists (λ t. t.id == env.uuid w.asked) w.db.transactions ≡ false
      → Ends (Credited i w.db) (finalize_in_transaction env i.id v source w)
  unfolding finalize_in_transaction finalize_found ◌>>=◌ find
  finalize_in_transaction-Ends i v source w found fresh = rw found (
      by_status-Ends (map_paystack_status_to_payment_intent_status (get v "status")) i v source w
        fresh)

-- with the result of the method
abbrev pub IsSettled : PaymentIntent → Db → WalletFundingResult → Db → Type 0
IsSettled i before r d =
    d.wallets ≡ (if r.success then credited_wallets i before else before.wallets)

-- For an intent that is there, and an id that is new: finalising either throws and leaves the
-- database as it was, or returns; if it reports success the wallet of the intent has got exactly
-- the intent's amount, once and for all, and otherwise no balance has changed.
pub finalize_funding_intent-IsSettled :
    (env : Env) (i : PaymentIntent) (v : Value) (source : String) (w : World)
    → find_first (is_intent i.id) w.db.intents ≡ some i
    → exists (λ t. t.id == env.uuid w.asked) w.db.transactions ≡ false
    → Whole (IsSettled i w.db) w.db (finalize_funding_intent env i.id v source w)
unfolding finalize_funding_intent ◌>>=◌ random_uuid ask
finalize_funding_intent-IsSettled env i v source w found fresh =
    Whole-bind (Credited env i w.db) (IsSettled i w.db) w.db
      (transaction (finalize_in_transaction env i.id v source)) _ w
      (transaction-Whole (Credited env i w.db) (finalize_in_transaction env i.id v source) w
        (finalize_in_transaction-Ends env i v source w found fresh))
      λ x w' credited. elim (Option-cases x.0.paystack_reference) [
        | inl missing ↦ rw missing credited
        | inr (r, given) ↦ rw given credited
      ]
