-- ===== src/Wallet/Ledger/Keys.antt =====
-- A request under an idempotency key keeps the wallet tables sound, if its action and its replay do.
use oyana_backend.Base.{String, Option, none, some, List}
use oyana_backend.Value.{Value}
use oyana_backend.Wallet.Schema.{KeyStatus, WalletIdempotencyKey}
use oyana_backend.Act.{Act, Error, is_unique_constraint_error}
use oyana_backend.Act.Keeps.{
  Keeps, Keeps-bind, Keeps-try_catch, Keeps-try_else, Keeps-find, Keeps-pure, Keeps-option,
  Keeps-if, Keeps-throw, Keeps-throw_if, Keeps-or_throw,
}
use oyana_backend.Wallet.Paystack.{Env}
use oyana_backend.Wallet.Idempotency.{
  with_idempotency, perform, run_action, fail_key, raced, replay_record, replay_by_status,
  create_key,
}
use oyana_backend.Wallet.Ledger.Writes.{Fact, Knows, Keeps-create_key, Keeps-update_key}
use oyana_backend.Wallet.Ledger.Accounts.{Keeps-random_uuid}

module _ {T : Type 0} (ks : List Fact) (env : Env) where
  Keeps-replay_by_status :
      (s : KeyStatus) (response : Option Value) (replay : Value → Act T)
      → ((v : Value) → Keeps (Knows ks) (replay v))
      → Keeps (Knows ks) (replay_by_status s response replay)
  Keeps-replay_by_status KeyStatus.completed (some v) replay k =
      Keeps-if _ _ _ (Keeps-throw _) (k v)
  Keeps-replay_by_status KeyStatus.completed none replay k = Keeps-throw _
  Keeps-replay_by_status KeyStatus.failed response replay k = Keeps-throw _
  Keeps-replay_by_status KeyStatus.in_progress response replay k = Keeps-throw _

  Keeps-replay_record :
      (hash : String) (replay : Value → Act T) (k : WalletIdempotencyKey)
      → ((v : Value) → Keeps (Knows ks) (replay v))
      → Keeps (Knows ks) (replay_record hash replay k)
  unfolding replay_record
  Keeps-replay_record hash replay k kr =
      Keeps-bind _ _ (Keeps-throw_if _ _) λ u. Keeps-replay_by_status k.status k.response replay kr

  Keeps-perform :
      (id : String) (action : Act (T × Value))
      → Keeps (Knows ks) action
      → Keeps (Knows ks) (perform env id action)
  unfolding perform run_action fail_key
  Keeps-perform id action ka =
      Keeps-try_catch _ _
        (Keeps-bind _ _ ka λ x. Keeps-bind _ _ (Keeps-update_key ks _ _) λ k. Keeps-pure _)
        λ e. Keeps-bind _ _ (Keeps-update_key ks _ _) λ k. Keeps-throw e

  Keeps-raced :
      (owner operation key hash : String) (replay : Value → Act T) (e : Error)
      → ((v : Value) → Keeps (Knows ks) (replay v))
      → Keeps (Knows ks) (raced env owner operation key hash replay e)
  unfolding raced
  Keeps-raced owner operation key hash replay e kr =
      Keeps-if (is_unique_constraint_error e) _ _
        (Keeps-bind _ _ (Keeps-find _ _) λ found.
          Keeps-bind _ _ (Keeps-or_throw found _) λ k. Keeps-replay_record hash replay k kr)
        (Keeps-throw e)

  pub Keeps-with_idempotency :
      (owner operation key : String) (payload : Value) (replay : Value → Act T)
      (action : Act (T × Value))
      → ((v : Value) → Keeps (Knows ks) (replay v))
      → Keeps (Knows ks) action
      → Keeps (Knows ks) (with_idempotency env owner operation key payload replay action)
  unfolding with_idempotency create_key
  Keeps-with_idempotency owner operation key payload replay action kr ka =
      Keeps-bind _ _ (Keeps-throw_if _ _) λ u. Keeps-bind _ _ (Keeps-find _ _) λ existing.
        Keeps-option existing _ _
          (Keeps-try_else _ _ _
            (Keeps-bind _ _ (Keeps-random_uuid (Knows ks) env) λ id. Keeps-create_key ks _ _)
            (λ k. Keeps-perform k.id action ka) (λ e. Keeps-raced owner operation _ _ replay e kr))
          (λ k. Keeps-replay_record _ replay k kr)
