-- ===== src/Wallet/Finalize/Frame.antt =====
-- What finalising a funding leaves alone: remembering the card writes the cards only, and marking
-- the intent the intents only (src/wallet/wallet.service.ts).
use oyana_backend.Base.{String, Bool, none, some, List}
use oyana_backend.Value.{Value, get}
use oyana_backend.Wallet.Schema.{PaymentIntent, WalletCardMethod}
use oyana_backend.Db.{Db, cards}
use oyana_backend.Act.{create, update}
use oyana_backend.Act.Keeps.{
  Keeps, keeps_rules, Keeps-bind, Keeps-find, Keeps-pure, Keeps-option, Keeps-if,
}
use oyana_backend.Act.Writes.{Keeps-create_by, Keeps-update_by}
use oyana_backend.Wallet.Paystack.{Env}
use oyana_backend.Wallet.Card.{code_of, is_reusable, upsert_wallet_card_method, save_card}
use oyana_backend.Wallet.Finalize.{check_verification, remember_card, owner_of}
use oyana_backend.Wallet.Ledger.Accounts.{Keeps-random_uuid, Keeps-now}

module _ (P : Db → Type 0) (env : Env)
    (cards_free : (l : List WalletCardMethod) (d : Db) → P d → P (record d { cards = l })) where
  Keeps-create_card :
      (clashes : WalletCardMethod → Bool) (row : WalletCardMethod)
      → Keeps P (create cards clashes row)
  Keeps-create_card clashes row = Keeps-create_by cards clashes row (λ d new h. cards_free _ d h)

  Keeps-update_card :
      (p : WalletCardMethod → Bool) (f : WalletCardMethod → WalletCardMethod)
      → Keeps P (update cards p f)
  Keeps-update_card p f = Keeps-update_by cards p f (λ d h. cards_free _ d h)

  Keeps-save_card :
      (owner wallet_id : String) (v m : Value) (code : String)
      → Keeps P (save_card env owner wallet_id v m code)
  unfolding save_card
  Keeps-save_card owner wallet_id v m code = Keeps-bind _ _ (Keeps-find _ _) (elim [
    | none ↦ search (keeps_rules, Keeps-random_uuid, Keeps-now, Keeps-create_card) depth 7
    | some card ↦ search (keeps_rules, Keeps-now, Keeps-update_card) depth 7
  ])

  pub Keeps-upsert :
      (owner wallet_id : String) (v m : Value)
      → Keeps P (upsert_wallet_card_method env owner wallet_id v m)
  unfolding upsert_wallet_card_method
  Keeps-upsert owner wallet_id v m =
      let authorization = get v "authorization" in
      Keeps-option (code_of (get authorization "authorization_code")) _ _ (Keeps-pure tt) λ code.
        Keeps-if (is_reusable (get authorization "reusable")) _ _
          (Keeps-save_card owner wallet_id v m code) (Keeps-pure tt)

  pub Keeps-remember_card :
      (i : PaymentIntent) (v : Value) (source : String) → Keeps P (remember_card env i v source)
  unfolding remember_card
  Keeps-remember_card i v source =
      Keeps-bind _ _ (Keeps-find _ _)
        λ w. Keeps-option (owner_of w) _ _ (Keeps-pure tt) (λ owner. Keeps-upsert owner _ v _)

module _ (P : Db → Type 0) (env : Env) where
  pub Keeps-check_verification :
      (i : PaymentIntent) (v : Value) → Keeps P (check_verification env i v)
  unfolding check_verification
  Keeps-check_verification i v = search keeps_rules
