-- ===== src/Wallet/Ledger/Requests.antt =====
-- Any sequence of requests keeps the wallet tables sound.
use oyana_backend.Base.{◌≤◌, String, false, Option, none, some, List, [], ◌∷◌, ◌||◌, ◌==◌}
use oyana_backend.Base.Table.{All}
use oyana_backend.Value.{Value, get, read_string}
use oyana_backend.Act.{World}
use oyana_backend.Act.Keeps.{
  Keeps, Keeps-bind, Keeps-pure, Keeps-option, Keeps-if, Keeps-throw, Keeps-throw_if,
}
use oyana_backend.Act.Promises.{Keeps-Triple}
use oyana_backend.Wallet.Paystack.{Env, verify_webhook_signature}
use oyana_backend.Wallet.Funding.{
  CreateWalletFundingInput, create_wallet_funding, confirm_wallet_funding,
}
use oyana_backend.Wallet.Withdrawal.{CreateWalletWithdrawalInput, create_wallet_withdrawal}
use oyana_backend.Wallet.Webhook.{
  paystack_webhook, handle_paystack_webhook_event, handle_payload, handle_event, dispatch_event,
}
use oyana_backend.Wallet.Ledger.{IsSound}
use oyana_backend.Wallet.Ledger.Writes.{Fact, holds_wallet, names_references, Knows}
use oyana_backend.Wallet.Ledger.Named.{
  IsNamed, credits, debits, repays, count, credits_once, debits_once, repays_once,
}
use oyana_backend.Wallet.Ledger.Accounts.{get_or_create_wallet_account-Triple}
use oyana_backend.Wallet.Ledger.Funding.{Keeps-finalize_funding_by_reference}
use oyana_backend.Wallet.Ledger.Withdrawal.{
  Keeps-mark_withdrawal_succeeded, Keeps-mark_withdrawal_failed_by_reference,
}
use oyana_backend.Wallet.Account.{get_or_create_wallet_account}
use oyana_backend.Wallet.Ledger.Deposits.{Keeps-create_wallet_funding, Keeps-confirm_wallet_funding}
use oyana_backend.Wallet.Ledger.Payouts.{Keeps-create_wallet_withdrawal}

-- What reaches the wallet from outside.
pub data Call : Type 0 where
  open_wallet : (owner : String) → Call
  fund : (owner : String) → CreateWalletFundingInput → Call
  confirm : (owner reference : String) → Call
  withdraw : (owner : String) → CreateWalletWithdrawalInput → Call
  webhook : (payload : Value) (raw_body : String) (signature : Option String) → Call

module _ (env : Env) where
  -- One call, as the resolvers and the controller make it: a throw is an answer to the client.
  abbrev pub serve_one : Call → World → World
  serve_one (open_wallet owner) w = (get_or_create_wallet_account env owner w).1
  serve_one (fund owner input) w = (create_wallet_funding env owner input w).1
  serve_one (confirm owner reference) w = (confirm_wallet_funding env owner reference w).1
  serve_one (withdraw owner input) w = (create_wallet_withdrawal env owner input w).1
  serve_one (webhook payload raw_body signature) w =
      (paystack_webhook env payload raw_body signature w).1

  unfoldable pub serve : List Call → World → World
  serve [] w = w
  serve (c ∷ cs) w = serve cs (serve_one c w)

module _ (ks : List Fact) (env : Env) where
  Keeps-dispatch_event :
      (event : String) (v : Value) (reference : String)
      → Keeps (Knows ks) (dispatch_event env event v reference)
  unfolding dispatch_event
  Keeps-dispatch_event event v reference =
      Keeps-if (event == "charge.success") _ _
        (Keeps-finalize_funding_by_reference ks env reference v _)
        (Keeps-if (event == "transfer.success") _ _
          (Keeps-mark_withdrawal_succeeded ks env reference v)
          (Keeps-if (event == "transfer.failed" || event == "transfer.reversed") _ _
            (Keeps-mark_withdrawal_failed_by_reference ks env reference _ v) (Keeps-pure tt)))

  Keeps-handle_payload :
      (event : Option String) (v : Option Value) → Keeps (Knows ks) (handle_payload env event v)
  unfolding handle_payload handle_event
  Keeps-handle_payload none v = Keeps-pure tt
  Keeps-handle_payload (some event) none = Keeps-pure tt
  Keeps-handle_payload (some event) (some v) =
      Keeps-option (read_string (get v "reference")) _ _ (Keeps-pure tt)
        (Keeps-dispatch_event event v)

  Keeps-verify_webhook_signature :
      (raw signature : String) → Keeps (Knows ks) (verify_webhook_signature env raw signature)
  unfolding verify_webhook_signature
  Keeps-verify_webhook_signature raw signature = Keeps-if (signature == "") _ _ (Keeps-pure false) (
      Keeps-option env.secret_key _ _ (Keeps-throw _)
        λ key. Keeps-if (key == "") _ _ (Keeps-throw _) (Keeps-pure _))

  Keeps-paystack_webhook :
      (payload : Value) (raw : String) (signature : Option String)
      → Keeps (Knows ks) (paystack_webhook env payload raw signature)
  unfolding paystack_webhook handle_paystack_webhook_event
  Keeps-paystack_webhook payload raw none = Keeps-throw _
  Keeps-paystack_webhook payload raw (some signature) =
      Keeps-if (signature == "") _ _ (Keeps-throw _) (
        Keeps-bind _ _ (Keeps-verify_webhook_signature raw signature)
          λ valid. Keeps-bind _ _ (Keeps-throw_if _ _) λ u. Keeps-handle_payload _ _)

  serve_one-Knows : (c : Call) (w : World) → Knows ks w.db → Knows ks (serve_one env c w).db
  serve_one-Knows (open_wallet owner) w h =
      (Keeps-Triple (λ a d. Knows (holds_wallet a.id ∷ ks) d) (λ a d k. (k.0, k.1.1))
          (get_or_create_wallet_account env owner)
          (get_or_create_wallet_account-Triple ks env owner)).at
        w h
  serve_one-Knows (fund owner input) w h = (Keeps-create_wallet_funding ks env owner input).at w h
  serve_one-Knows (confirm owner reference) w h =
      (Keeps-confirm_wallet_funding ks env owner reference).at w h
  serve_one-Knows (withdraw owner input) w h =
      (Keeps-create_wallet_withdrawal ks env owner input).at w h
  serve_one-Knows (webhook payload raw signature) w h =
      (Keeps-paystack_webhook payload raw signature).at w h

  serve-Knows : (cs : List Call) (w : World) → Knows ks w.db → Knows ks (serve env cs w).db
  unfolding serve
  serve-Knows [] w h = h
  serve-Knows (c ∷ cs) w h = serve-Knows cs (serve_one env c w) (serve_one-Knows c w h)

-- From sound tables, after any requests in any order, whatever Paystack answers, the balance of
-- every wallet is the sum of its completed credits less its completed debits and is not negative,
-- every transaction, intent and withdrawal belongs to a wallet that is there, and no two
-- transactions have the same reference.
pub serve-IsSound :
    (env : Env) (cs : List Call) (w : World) → IsSound w.db → IsSound (serve env cs w).db
serve-IsSound env cs w h = (serve-Knows [] env cs w (h, tt)).0

-- From sound tables whose transactions are named after what they are about, after any requests in any
-- order, whatever Paystack answers, at most one transaction credits an intent, at most one debits a
-- withdrawal, and at most one pays it back, by the ids that the transactions hold.
pub serve-posts_once :
    (env : Env) (cs : List Call) (w : World) (id : String)
    → IsSound w.db
    → All IsNamed w.db.transactions
    → let ts = (serve env cs w).db.transactions in
      (count (credits id) ts ≤ 1) × (count (debits id) ts ≤ 1) × (count (repays id) ts ≤ 1)
serve-posts_once env cs w id h named =
    let (sound, (all_named, u)) = serve-Knows (names_references ∷ []) env cs w (h, (named, tt)) in
    let d = sound.references_distinct in
    (credits_once id _ all_named d, debits_once id _ all_named d, repays_once id _ all_named d)
