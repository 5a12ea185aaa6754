-- ===== src/Wallet/Idempotency/Retry.antt =====
-- A request that is sent again under its key (`withIdempotency` of src/wallet/wallet.service.ts).
use oyana_backend.Base.{String, ◌≡◌, none, some}
use oyana_backend.Base.Text.{trim}
use oyana_backend.Base.Table.{find_first}
use oyana_backend.Value.{Value, to_json_value}
use oyana_backend.Wallet.Schema.{WalletIdempotencyKey, KeyStatus}
use oyana_backend.Db.{Db, keys}
use oyana_backend.Act.{World, Act}
use oyana_backend.Act.Ends.{Ends}
use oyana_backend.Wallet.Paystack.{Env}
use oyana_backend.Wallet.Idempotency.{is_same_key, hash_payload}

module _ (env : Env) (owner operation key : String) (payload : Value) where
  -- the request under the key is completed with the response `p`
  abbrev Answered : Value → Db → Type 0
  Answered p d =
      (k : WalletIdempotencyKey) × (find_first (is_same_key owner operation (trim key)) d.keys
        ≡ some k)
      × (k.request_hash ≡ hash_payload env payload)
      × (k.status ≡ KeyStatus.completed)
      × (k.response ≡ some p)

  module _ {T : Type 0} (replay : Value → Act T) (action : Act (T × Value)) where
    module _ (Q : Value → Type 0)
        (answers : (w : World)
          → Ends (λ x d. Q (to_json_value x.1) × (d.keys ≡ w.db.keys)) (action w)) where
      abbrev Kept : T → Db → Type 0
      Kept r d = (p : Value) × Q p × Answered p d

      abbrev started : String → WalletIdempotencyKey
      started id = record {
        id = id;
        profile_id = owner;
        operation = operation;
        key = trim key;
        request_hash = hash_payload env payload;
        status = KeyStatus.in_progress;
        response = none;
      }
