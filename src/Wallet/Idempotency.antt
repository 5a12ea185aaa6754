-- ===== src/Wallet/Idempotency.antt =====
-- `withIdempotency` of src/wallet/wallet.service.ts, with the canonical text of a payload that it
-- hashes (`stableStringify`).
pub mod Stringify
pub mod Retry
use oyana_backend.Base.{
  ℕ, String, Bool, true, false, not, ◌&&◌, ◌||◌, Option, none, some, if◌then◌else◌, ⊤, ◌==◌,
}
use oyana_backend.Base.Text.{trim}
use oyana_backend.Value.{Value, to_json_value}
use oyana_backend.Wallet.Schema.{WalletIdempotencyKey, KeyStatus}
use oyana_backend.Act.{
  Error, Result, bad_request, conflict, is_unique_constraint_error, Act, pure, throw, throw_if,
  or_throw, try_catch, try_else, find, create, update, ◌>>=◌, ◌>>◌,
}
use oyana_backend.Db.{keys}
use oyana_backend.Wallet.Paystack.{Env, random_uuid}
use Stringify.{stable_stringify}

-- what decides whether an existing record is replayed
abbrev pub is_same_key : String → String → String → WalletIdempotencyKey → Bool
is_same_key owner operation key k =
    k.profile_id == owner && k.operation == operation && k.key == key

abbrev pub is_falsy : Value → Bool
is_falsy Value.undefined = true
is_falsy Value.null = true
is_falsy (Value.bool b) = not b
is_falsy (Value.text s) = s == ""
is_falsy _ = false

unfoldable pub hash_payload : Env → Value → String
hash_payload env payload = env.sha256 (stable_stringify payload)

module _ {T : Type 0} where
  -- a `completed` record is replayed if its response is truthy
  abbrev pub replay_by_status : KeyStatus → Option Value → (Value → Act T) → Act T
  replay_by_status KeyStatus.completed (some response) replay =
      if is_falsy response
      then throw (conflict "A request with this idempotency key is already processing")
      else replay response
  replay_by_status KeyStatus.failed response replay =
      throw
        (conflict "Previous request with this idempotency key failed. Use a new idempotency key.")
  replay_by_status _ response replay =
      throw (conflict "A request with this idempotency key is already processing")

  -- the three tests on a record that is already there
  unfoldable pub replay_record : String → (Value → Act T) → WalletIdempotencyKey → Act T
  replay_record request_hash replay record' = do
    throw_if (not (record'.request_hash == request_hash))
        (conflict "Idempotency key has already been used with a different payload")
    replay_by_status record'.status record'.response replay

module _ (env : Env) where
  unfoldable pub create_key : String → String → String → String → Act WalletIdempotencyKey
  create_key owner operation key request_hash = do
    id ← random_uuid env
    create keys (λ k. k.id == id || is_same_key owner operation key k)
        (record {
          id = id;
          profile_id = owner;
          operation = operation;
          key = key;
          request_hash = request_hash;
          status = KeyStatus.in_progress;
          response = none;
        })

  module _ {T : Type 0} where
    -- `action`, then the record is completed
    unfoldable pub run_action : String → Act (T × Value) → Act T
    run_action id action = do
      (result, response_payload) ← action
      update keys (λ k. k.id == id)
          (λ k. record k {
            status = KeyStatus.completed;
            response = some (to_json_value response_payload);
          })
      pure result

    -- the `catch` of a failed action
    unfoldable pub fail_key : String → Error → Act T
    fail_key id e = do
      update keys (λ k. k.id == id) (λ k. record k { status = KeyStatus.failed })
      throw e

    unfoldable pub perform : String → Act (T × Value) → Act T
    perform id action = try_catch (run_action id action) (fail_key id)

    -- the `catch` of a lost race for the key
    unfoldable pub raced : String → String → String → String → (Value → Act T) → Error → Act T
    raced owner operation key request_hash replay e =
        if is_unique_constraint_error e
        then (do
          found ← find keys (is_same_key owner operation key)
          raced_record ←
              or_throw found (conflict "A request with this idempotency key already exists")
          replay_record request_hash replay raced_record)
        else throw e

    -- `create` fails before the action starts, so its `catch` does not cover the action.
    abbrev pub begin : String → String → String → String → (Value → Act T) → Act (T × Value) → Act T
    begin owner operation key request_hash replay action =
        try_else (create_key owner operation key request_hash) (λ k. perform k.id action)
          (raced owner operation key request_hash replay)

    unfoldable pub with_idempotency :
        String → String → String → Value → (Value → Act T) → Act (T × Value) → Act T
    with_idempotency owner operation idempotency_key payload replay action = do
      let key = trim idempotency_key
      throw_if (key == "") (bad_request "idempotencyKey is required")
      let request_hash = hash_payload env payload
      existing ← find keys (is_same_key owner operation key)
      elim existing [
        | some k ↦ replay_record request_hash replay k
        | none ↦ begin owner operation key request_hash replay action
      ]
