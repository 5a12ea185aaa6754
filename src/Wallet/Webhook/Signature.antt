-- ===== src/Wallet/Webhook/Signature.antt =====
-- Which webhooks reach the wallet (src/wallet/wallet.controller.ts, wallet.service.ts).
use oyana_backend.Base.{
  String, Bool, false, not, ◌≡◌, refl, Option, none, some, if◌then◌else◌, ◌==◌, ◌&&◌, Bool-cases,
  Option-cases, inl, inr,
}
use oyana_backend.Value.{Value, get}
use oyana_backend.Act.{Error, bad_request, forbidden, plain_error, err, World, ◌>>=◌}
use oyana_backend.Wallet.Paystack.{Env, verify_webhook_signature, not_empty}
use oyana_backend.Wallet.Webhook.{
  paystack_webhook, handle_paystack_webhook_event, handle_payload, event_name, event_data,
}

-- A signature that is there, under a key that is there, of the body as it was sent.
abbrev pub is_signed : Env → String → Option String → Bool
is_signed env raw_body none = false
is_signed env raw_body (some signature) = not (signature == "") && elim env.secret_key [
  | none ↦ false
  | some key ↦ not (key == "") && (env.hmac_sha512 key raw_body == signature)
]

abbrev pub refusal : Env → Option String → Error
refusal env signature =
    if not (not_empty signature)
    then bad_request "Missing Paystack signature"
    else if not (not_empty env.secret_key)
    then plain_error "PAYSTACK_SECRET_KEY is not configured"
    else forbidden "Invalid Paystack webhook signature"

-- A webhook with the right signature is handled; any other is refused, and nothing changes.
pub paystack_webhook-is_signed :
    (env : Env) (payload : Value) (raw_body : String) (signature : Option String) (w : World)
    → paystack_webhook env payload raw_body signature w ≡ (
        if is_signed env raw_body signature
        then handle_payload env
            (event_name (get payload "event"))
            (event_data (get payload "data"))
            w
        else (err (refusal env signature), w))
unfolding paystack_webhook handle_paystack_webhook_event verify_webhook_signature ◌>>=◌
paystack_webhook-is_signed env payload raw_body none w = refl
paystack_webhook-is_signed env payload raw_body (some signature) w =
    elim (Bool-cases (signature == "")) [
      | inl e ↦ rw e refl
      | inr e ↦ elim (Option-cases env.secret_key) [
        | inl o ↦ rw (e, o) refl
        | inr (key, o) ↦ elim (Bool-cases (key == "")) [
          | inl k ↦ rw (e, o, k) refl
          | inr k ↦ elim (Bool-cases (env.hmac_sha512 key raw_body == signature)) [
            | inl h ↦ rw (e, o, k, h) refl
            | inr h ↦ rw (e, o, k, h) refl
          ]
        ]
      ]
    ]
