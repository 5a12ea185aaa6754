-- ===== src/Wallet/Once/Fundings.antt =====
-- Two fundings under one key: at most one of them has an effect, whatever comes between
-- (`createWalletFunding` of src/wallet/wallet.service.ts).
use oyana_backend.Base.{String, ◌≡◌, refl, ◌⊎◌, inl, inr, List, subst}
use oyana_backend.Base.Text.{trim}
use oyana_backend.Value.{Value}
use oyana_backend.Act.{World}
use oyana_backend.Act.Reads.{
  Reads, Reads-bind, Reads_then, Reads-find, Reads-throw_if, Reads-or_throw, Reads-pure,
}
use oyana_backend.Wallet.Paystack.{Env}
use oyana_backend.Wallet.Funding.{
  CreateWalletFundingInput, create_wallet_funding, replay_wallet_funding_response, find_own_intent,
}
use oyana_backend.Act.{find}
use oyana_backend.Wallet.Ledger.Requests.{Call, serve}
use oyana_backend.Wallet.Once.{Taken}
use oyana_backend.Wallet.Once.Keys.{IsUntouched, with_idempotency-Reads, with_idempotency-Takes}
use oyana_backend.Wallet.Once.Deposits.{Keeps-fund}
use oyana_backend.Wallet.Once.Requests.{
  serve-Taken, Reads-assert_phone_verified, Reads-normalize_currency,
}

Reads-find_own_intent :
    (owner reference : String) (w : World) → Reads (find_own_intent owner reference) w
unfolding find_own_intent find
Reads-find_own_intent owner reference w = record { same = refl }

Reads-replay_funding :
    (owner : String) (v : Value) (w : World) → Reads (replay_wallet_funding_response owner v) w
unfolding replay_wallet_funding_response
Reads-replay_funding owner v w = Reads-bind _ _ w (Reads-or_throw _ _ w) λ reference.
    Reads-bind _ _ w (Reads-find_own_intent owner reference w) λ found.
      Reads-bind _ _ w (Reads-or_throw found _ w)
        λ i. Reads-bind _ _ w (Reads-find _ _ w) λ t. Reads-pure _ w

abbrev operation : String
operation = "wallet_funding_create"

module _ (env : Env) (owner : String) (input : CreateWalletFundingInput) where
  funding-Reads :
      (w : World)
      → Taken owner operation (trim input.idempotency_key) w.db
      → Reads (create_wallet_funding env owner input) w
  unfolding create_wallet_funding
  funding-Reads w taken = Reads-bind _ _ w (Reads-assert_phone_verified owner w) λ u.
      Reads-bind _ _ w (Reads-normalize_currency input.currency w) λ currency.
        Reads-bind _ _ w (Reads-throw_if _ _ w) λ u.
          with_idempotency-Reads owner operation input.idempotency_key env _ _
            (Reads-replay_funding owner) _ w taken

  abbrev Begun : World → World → Type 0
  Begun w w' = IsUntouched w w' ⊎ Taken owner operation (trim input.idempotency_key) w'.db

  funding-Begun : (w : World) → Begun w (create_wallet_funding env owner input w).1
  unfolding create_wallet_funding
  funding-Begun w =
      Reads_then (Begun w) _ _ w (Reads-assert_phone_verified owner w) (inl (refl, refl)) λ u.
        Reads_then (Begun w) _ _ w (Reads-normalize_currency input.currency w) (inl (refl, refl))
          λ currency. Reads_then (Begun w) _ _ w (Reads-throw_if _ _ w) (inl (refl, refl)) λ u.
            with_idempotency-Takes owner operation input.idempotency_key env _ _
              (Reads-replay_funding owner) _ w
              (Keeps-fund owner operation (trim input.idempotency_key) env owner input currency)

-- Of two fundings of one client under the same key, with any requests between them and whatever
-- the two ask for, the first leaves the database and the requests to Paystack as they were, or the
-- second leaves the world as it was.
pub create_wallet_funding-once :
    (env : Env) (owner : String) (first second : CreateWalletFundingInput) (between : List Call)
    (w : World)
    → trim first.idempotency_key ≡ trim second.idempotency_key
    → let w1 = (create_wallet_funding env owner first w).1 in
      let w2 = serve env between w1 in
      IsUntouched w w1 ⊎ ((create_wallet_funding env owner second w2).1 ≡ w2)
create_wallet_funding-once env owner first second between w same_key =
    let w2 = serve env between (create_wallet_funding env owner first w).1 in
    elim (funding-Begun env owner first w) [
      | inl untouched ↦ inl untouched
      | inr taken ↦
          let still =
            serve-Taken owner operation (trim first.idempotency_key) env between _ taken in
          let now_taken = subst (λ key. Taken owner operation key w2.db) same_key still in
          inr (funding-Reads env owner second w2 now_taken).same
    ]
