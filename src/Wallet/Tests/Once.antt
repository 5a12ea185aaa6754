-- ===== src/Wallet/Tests/Once.antt =====
-- Two withdrawals, and two fundings, under one key, at a concrete input: the second asks for more, and the client
-- confirms a payment between them.
use oyana_backend.Base.{◌≡◌, refl, ◌⊎◌}
use oyana_backend.Base.Int.{pos}
use oyana_backend.Base.Text.{trim}
use oyana_backend.Act.{World}
use oyana_backend.Wallet.Withdrawal.{CreateWalletWithdrawalInput, create_wallet_withdrawal}
use oyana_backend.Wallet.Ledger.Requests.{serve}
use oyana_backend.Wallet.Once.Keys.{IsUntouched}
use oyana_backend.Wallet.Once.Requests.{create_wallet_withdrawal-once}
use oyana_backend.Wallet.Funding.{CreateWalletFundingInput, create_wallet_funding}
use oyana_backend.Wallet.Once.Fundings.{create_wallet_funding-once}
use oyana_backend.Wallet.Tests.{paystack, payout, requests, topup, opened}
use oyana_backend.Wallet.Tests.Money.{funded}

abbrev more : CreateWalletWithdrawalInput
more = record payout { amount_minor = pos 2500; idempotency_key = " k2 " }

abbrev first_done : World
first_done = (create_wallet_withdrawal paystack "ada" payout funded).1

create_wallet_withdrawal-once_example :
    let later = serve paystack requests first_done in
    IsUntouched funded first_done ⊎ ((create_wallet_withdrawal paystack "ada" more later).1 ≡ later)
unfolding trim
create_wallet_withdrawal-once_example =
    create_wallet_withdrawal-once paystack "ada" payout more requests funded refl

abbrev other : CreateWalletFundingInput
other = record topup { amount_minor = pos 100; idempotency_key = "k1 " }

abbrev funded_once : World
funded_once = (create_wallet_funding paystack "ada" topup opened).1

create_wallet_funding-once_example :
    let later = serve paystack requests funded_once in
    IsUntouched opened funded_once ⊎ ((create_wallet_funding paystack "ada" other later).1 ≡ later)
unfolding trim
create_wallet_funding-once_example =
    create_wallet_funding-once paystack "ada" topup other requests opened refl
