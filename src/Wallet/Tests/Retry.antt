-- ===== src/Wallet/Tests/Retry.antt =====
-- A request that is sent twice, at a concrete input: its action answers with a reference.
use oyana_backend.Base.{String}
use oyana_backend.Value.{Value, object, field, end, text}
use oyana_backend.Act.{World, Result, Act, pure, throw, bad_request}
use oyana_backend.Wallet.Idempotency.{with_idempotency}
use oyana_backend.Wallet.Tests.{paystack, opened}

abbrev answer : Act (String × Value)
answer = pure ("done", object (field "reference" (text "WLF_1") end))

abbrev again : Act (String × Value)
again = throw (bad_request "not again")

abbrev repeat : Value → Act String
repeat p = pure "replayed"

abbrev response : Value
response = object (field "reference" (text "WLF_1") end)

abbrev call : Act (String × Value) → World → Result String × World
call action w = with_idempotency paystack "ada" "op" " k1 " (object end) repeat action w

abbrev after : World
after = (call answer opened).1
