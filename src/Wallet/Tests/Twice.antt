-- ===== src/Wallet/Tests/Twice.antt =====
-- A withdrawal that is paid back twice (`markWithdrawalFailedAndReverse` of
-- src/wallet/wallet.service.ts), at a concrete database.
use oyana_backend.Base.{◌≡◌, refl, none}
use oyana_backend.Base.Text.{show_ℕ}
use oyana_backend.Base.Table.{find_first, update_where}
use oyana_backend.Act.{World, ok, ◌>>=◌, ask, find, create, update, transaction}
use oyana_backend.Wallet.Account.{get_withdrawal_reversal_reference}
use oyana_backend.Wallet.Paystack.{now, random_uuid}
use oyana_backend.Wallet.Withdrawal.Reversal.{
  settle_reversal, credit_reversal, mark_reversed, reverse_unless_reversed, reverse_in_transaction,
  mark_withdrawal_failed_and_reverse,
}
use oyana_backend.Wallet.Withdrawal.Twice.{mark_withdrawal_failed_and_reverse-twice}
use oyana_backend.Wallet.Tests.{paystack}
use oyana_backend.Wallet.Tests.Money.{funded}

abbrev paid_back : World
paid_back = (mark_withdrawal_failed_and_reverse paystack "d1" "declined" none funded).1

pays_back_test :
    mark_withdrawal_failed_and_reverse paystack "d1" "declined" none funded ≡ (ok tt, paid_back)
unfolding mark_withdrawal_failed_and_reverse transaction reverse_in_transaction ◌>>=◌ find
    reverse_unless_reversed settle_reversal credit_reversal random_uuid ask create update
    mark_reversed now find_first update_where show_ℕ get_withdrawal_reversal_reference
pays_back_test = refl

mark_withdrawal_failed_and_reverse-twice_example :
    mark_withdrawal_failed_and_reverse paystack "d1" "again" none paid_back ≡ (ok tt, paid_back)
mark_withdrawal_failed_and_reverse-twice_example =
    mark_withdrawal_failed_and_reverse-twice paystack "d1" "declined" "again" none none funded
      paid_back paid_back pays_back_test refl
