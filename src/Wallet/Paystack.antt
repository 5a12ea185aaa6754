-- ===== src/Wallet/Paystack.antt =====
-- src/wallet/paystack.service.ts over an HTTP client that is a parameter, with the other things
-- that the wallet takes from outside: ids, the clock, hashes, configuration.
pub mod Status
use oyana_backend.Base.{
  ℕ, String, Bool, true, false, not, ◌||◌, ◌&&◌, Option, none, some, List, [], ◌∷◌, if◌then◌else◌,
  ⊤, ◌==◌, or_else, get_or,
}
use oyana_backend.Base.Int.{ℤ}
use oyana_backend.Value.{Value, get}
use oyana_backend.Act.{
  bad_request, plain_error, Result, ok, err, Request, charge, transfer, Act, lift, ◌>>=◌, ◌>>◌, ask,
  pure, throw,
}

-- What the HTTP client answers: the body's `status`, `message` and `data`, or the messages of a
-- failed request (`error.response?.data?.message`, `error.message`).
pub data Reply (A : Type 0) : Type 0 where
  body : (status : Bool) (message : String) → A → Reply A
  failure : (response_message error_message : Option String) → Reply A

pub record PaystackBank : Type 0 where
  pub name : String
  pub code : String

pub record InitializeTransactionInput : Type 0 where
  pub email : String
  pub amount_minor : ℤ
  pub reference : String
  pub currency : String
  pub callback_url : Option String
  pub metadata : Value

pub record ChargeAuthorizationInput : Type 0 where
  pub email : String
  pub amount_minor : ℤ
  pub reference : String
  pub authorization_code : String
  pub currency : String
  pub metadata : Value

pub record ResolveAccountInput : Type 0 where
  pub account_number : String
  pub bank_code : String

pub record CreateRecipientInput : Type 0 where
  pub account_name : String
  pub account_number : String
  pub bank_code : String
  pub currency : String

pub record TransferInput : Type 0 where
  pub amount_minor : ℤ
  pub reference : String
  pub recipient_code : String
  pub reason : Option String
  pub currency : String

pub record TransferData : Type 0 where
  pub id : Option ℕ
  pub transfer_code : Option String
  pub reference : String
  pub status : Option String
  -- the whole answer, as it is stored
  pub raw : Value

-- What lies outside the service. `axios` answers by the request's data, whose amount is the
-- `Number` of the bigint. The number is how many questions went before, so that no two answers
-- need agree.
pub record Env : Type 0 where
  pub secret_key : Option String
  pub number_of : ℤ → ℤ
  pub post_initialize : ℕ → InitializeTransactionInput → Reply Value
  pub post_charge : ℕ → ChargeAuthorizationInput → Reply Value
  pub get_verify : ℕ → String → Reply Value
  pub get_banks : ℕ → String → Reply (List PaystackBank)
  pub get_resolve : ℕ → ResolveAccountInput → Reply String
  pub post_recipient : ℕ → CreateRecipientInput → Reply String
  pub post_transfer : ℕ → TransferInput → Reply TransferData
  pub hmac_sha512 : (key body : String) → String
  pub sha256 : String → String
  pub uuid : ℕ → String
  pub now : ℕ → ℕ
  pub text_to_bigint : String → Option ℤ
  pub prisma_message : String → String
  pub fallback_email_domain : Option String
  pub wallet_callback_url : Option String

abbrev pub not_empty : Option String → Bool
not_empty none = false
not_empty (some s) = not (s == "")

module _ {A : Type 0} where
  -- `data.message || fallbackMessage`, and the handler of `request`
  abbrev pub answer : Reply A → String → Result A
  answer (body true message a) fallback = ok a
  answer (body false message a) fallback =
      err (bad_request (if message == "" then fallback else message))
  answer (failure response_message error_message) fallback =
      err (bad_request (get_or (or_else response_message error_message) fallback))

  -- A missing key is an `Error` inside the `try`, which comes back as its message.
  unfoldable pub request : Option String → Reply A → String → Result A
  request secret reply fallback =
      if not_empty secret
      then answer reply fallback
      else err (bad_request "PAYSTACK_SECRET_KEY is not configured")

module _ (env : Env) where
  -- the request is counted once the key is there
  unfoldable pub log_request : Request → Act ⊤
  log_request r w = (ok tt, if not_empty env.secret_key then record w { sent = r ∷ w.sent } else w)

  unfoldable pub initialize_transaction : InitializeTransactionInput → Act Value
  initialize_transaction input = ask λ n.
      request env.secret_key
        (env.post_initialize n (record input { amount_minor = env.number_of input.amount_minor }))
        "Failed to initialize Paystack transaction"

  unfoldable pub charge_authorization : ChargeAuthorizationInput → Act Value
  charge_authorization input = do
    log_request (charge input.reference (env.number_of input.amount_minor))
    ask λ n.
        request env.secret_key
          (env.post_charge n (record input { amount_minor = env.number_of input.amount_minor }))
          "Failed to charge authorization"

  unfoldable pub verify_transaction : String → Act Value
  verify_transaction reference =
      ask λ n. request env.secret_key (env.get_verify n reference) "Failed to verify transaction"

  unfoldable pub get_supported_banks : String → Act (List PaystackBank)
  get_supported_banks country =
      ask λ n. request env.secret_key (env.get_banks n country) "Failed to fetch supported banks"

  unfoldable pub resolve_bank_account : ResolveAccountInput → Act String
  resolve_bank_account input =
      ask λ n. request env.secret_key (env.get_resolve n input) "Failed to resolve bank account"

  unfoldable pub create_transfer_recipient : CreateRecipientInput → Act String
  create_transfer_recipient input =
      ask λ n.
        request env.secret_key (env.post_recipient n input) "Failed to create transfer recipient"

  unfoldable pub initiate_transfer : TransferInput → Act TransferData
  initiate_transfer input = do
    log_request (transfer input.reference input.recipient_code (env.number_of input.amount_minor))
    ask λ n.
        request env.secret_key
          (env.post_transfer n (record input { amount_minor = env.number_of input.amount_minor }))
          "Failed to initiate transfer"

  -- The comparison of lengths and of bytes in constant time is equality of the two texts.
  unfoldable pub verify_webhook_signature : String → String → Act Bool
  verify_webhook_signature raw_body signature =
      if signature == "" then pure false else elim env.secret_key [
        | none ↦ throw (plain_error "PAYSTACK_SECRET_KEY is not configured")
        | some key ↦
            if key == ""
            then throw (plain_error "PAYSTACK_SECRET_KEY is not configured")
            else pure (env.hmac_sha512 key raw_body == signature)
      ]

  unfoldable pub random_uuid : Act String
  random_uuid = ask λ n. ok (env.uuid n)

  -- `new Date()`
  unfoldable pub now : Act ℕ
  now = ask λ n. ok (env.now n)
