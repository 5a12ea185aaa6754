-- ===== src/Wallet/Ledger/Funding.antt =====
-- Funding keeps the wallet tables sound, whatever Paystack answers.
use oyana_backend.Base.{String, Bool, ◌≡◌, refl, some, List, ◌∷◌, arith}
use oyana_backend.Base.Int.{pos, ◌≤ℤ◌}
use oyana_backend.Base.Table.{find_first, find_first-All}
use oyana_backend.Value.{Value}
use oyana_backend.Value.{get_field}
use oyana_backend.Wallet.Schema.{PaymentIntent, is_succeeded}
use oyana_backend.Db.{Db, intents}
use oyana_backend.Act.{World}
use oyana_backend.Act.Keeps.{
  Keeps, Keeps-bind, Keeps-try_catch, Keeps-find, Keeps-pure, Keeps-option, Keeps-if, Keeps-throw,
  Keeps-lift, Keeps-transaction,
}
use oyana_backend.Act.Writes.{Keeps-find_row}
use oyana_backend.Wallet.Paystack.{Env}
use oyana_backend.Wallet.Finalize.{
  credit_topup, adopt_topup, settle_topup, mark_intent_failed, mark_intent_succeeded,
  finalize_in_transaction, finalize_found, finalize_funding_intent, finalize_funding_by_reference,
  topup_row,
}
use oyana_backend.Wallet.Finalize.Frame.{Keeps-check_verification, Keeps-remember_card}
use oyana_backend.Wallet.Ledger.{IsOwned, IsSoundIntent}
use oyana_backend.Wallet.Ledger.Named.{IsNamed}
use oyana_backend.Wallet.Ledger.Writes.{Fact, holds_wallet, Knows, Keeps-update_intent}
use oyana_backend.Wallet.Ledger.Posting.{Keeps-credit}
use oyana_backend.Wallet.Ledger.Accounts.{Keeps-random_uuid, Keeps-now}

topup_row-IsNamed : (id source : String) (i : PaymentIntent) → IsNamed (topup_row id source i)
unfolding get_field
topup_row-IsNamed id source i = record { by_intent = refl; by_withdrawal = tt }

module _ (ks : List Fact) (env : Env) where
  Keeps-credit_topup :
      (source : String) (i : PaymentIntent)
      → pos 1 ≤ℤ i.amount_minor
      → ((d : Db) → Knows ks d → IsOwned d.wallets i.wallet_account_id)
      → Keeps (Knows ks) (credit_topup env source i)
  unfolding credit_topup
  Keeps-credit_topup source i positive owned =
      Keeps-bind _ _ (Keeps-random_uuid (Knows ks) env) λ id.
        Keeps-credit ks (topup_row id source i) refl (topup_row-IsNamed id source i) _ _
          i.amount_minor refl refl (omega arith) owned (λ r. Keeps-pure (some r))

  Keeps-settle_topup :
      (source : String) (i : PaymentIntent)
      → pos 1 ≤ℤ i.amount_minor
      → ((d : Db) → Knows ks d → IsOwned d.wallets i.wallet_account_id)
      → Keeps (Knows ks) (settle_topup env source i)
  unfolding settle_topup adopt_topup
  Keeps-settle_topup source i positive owned = Keeps-bind _ _ (Keeps-find _ _) λ existing.
      Keeps-option existing _ _
        (Keeps-try_catch _ _ (Keeps-credit_topup source i positive owned)
          (λ e. Keeps-if _ _ _ (Keeps-find _ _) (Keeps-throw e)))
        (λ t. Keeps-pure (some t))

  pub Keeps-mark_intent_failed :
      (id : String) (v : Value) → Keeps (Knows ks) (mark_intent_failed id v)
  unfolding mark_intent_failed
  Keeps-mark_intent_failed id v = Keeps-update_intent ks _ _ (λ i. refl) (λ i. refl)

  Keeps-mark_intent_succeeded :
      (id : String) (v : Value) → Keeps (Knows ks) (mark_intent_succeeded env id v)
  unfolding mark_intent_succeeded
  Keeps-mark_intent_succeeded id v =
      Keeps-bind _ _ (Keeps-now (Knows ks) env)
        λ time. Keeps-update_intent ks _ _ (λ i. refl) (λ i. refl)

  Keeps-finalize_found :
      (i : PaymentIntent) (v : Value) (source : String)
      → pos 1 ≤ℤ i.amount_minor
      → ((d : Db) → Knows ks d → IsOwned d.wallets i.wallet_account_id)
      → Keeps (Knows ks) (finalize_found env v source i)
  unfolding finalize_found
  Keeps-finalize_found i v source positive owned = Keeps-bind _ _ (Keeps-lift _) λ status.
      Keeps-if (is_succeeded status) _ _
        (Keeps-bind _ _ (Keeps-check_verification (Knows ks) env i v) λ u.
          Keeps-bind _ _ (Keeps-settle_topup source i positive owned) λ t.
            Keeps-bind _ _ (Keeps-mark_intent_succeeded i.id v) λ j.
              Keeps-bind _ _ (Keeps-remember_card (Knows ks) env (λ l d h. h) i v source)
                λ u. Keeps-pure _)
        (Keeps-bind _ _ (Keeps-mark_intent_failed i.id v) λ j. Keeps-pure _)

module _ (ks : List Fact) (env : Env) where
  finalize_in_transaction-at :
      (v : Value) (source : String) (w : World) (p : PaymentIntent → Bool) (i : PaymentIntent)
      → Knows ks w.db
      → find_first p w.db.intents ≡ some i
      → Knows ks (finalize_found env v source i w).1.db
  finalize_in_transaction-at v source w p i h found =
      let s =
        find_first-All (IsSoundIntent w.db.wallets) p w.db.intents i h.0.intents_sound found in
      let h' =
        (Keeps-finalize_found (holds_wallet i.wallet_account_id ∷ ks) env i v source s.positive
            (λ d k. k.1.0)).at
          w (h.0, (s.owned, h.1)) in
      (h'.0, h'.1.1)

  pub Keeps-finalize_in_transaction :
      (id : String) (v : Value) (source : String)
      → Keeps (Knows ks) (finalize_in_transaction env id v source)
  unfolding finalize_in_transaction
  Keeps-finalize_in_transaction id v source =
      Keeps-find_row intents _ _ _
        (λ w h i found. finalize_in_transaction-at v source w _ i h found)

  pub Keeps-finalize_funding_intent :
      (id : String) (v : Value) (source : String)
      → Keeps (Knows ks) (finalize_funding_intent env id v source)
  unfolding finalize_funding_intent
  Keeps-finalize_funding_intent id v source =
      Keeps-bind _ _ (Keeps-transaction _ (Keeps-finalize_in_transaction id v source)) λ x.
        Keeps-bind _ _
          (Keeps-option x.0.paystack_reference _ _ (Keeps-random_uuid (Knows ks) env)
            (λ r. Keeps-pure r))
          λ r. Keeps-pure _

  pub Keeps-finalize_funding_by_reference :
      (reference : String) (v : Value) (source : String)
      → Keeps (Knows ks) (finalize_funding_by_reference env reference v source)
  unfolding finalize_funding_by_reference
  Keeps-finalize_funding_by_reference reference v source = Keeps-bind _ _ (Keeps-find _ _) λ found.
      Keeps-option found _ _ (Keeps-pure tt)
        λ i. Keeps-bind _ _ (Keeps-finalize_funding_intent i.id v source) λ r. Keeps-pure tt
