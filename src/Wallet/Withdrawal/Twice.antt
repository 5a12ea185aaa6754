-- ===== src/Wallet/Withdrawal/Twice.antt =====
-- A reversal that is asked for again (`markWithdrawalFailedAndReverse` of
-- src/wallet/wallet.service.ts).
use oyana_backend.Base.{
  String, Bool, true, ◌≡◌, refl, Option, none, some, List, ◌==◌, Bool-cases, Option-cases, inl, inr,
  subst, sym, eq_iff,
}
use oyana_backend.Base.Table.{find_first, find_first-holds, find_first-update_where}
use oyana_backend.Value.{Value}
use oyana_backend.Wallet.Schema.{WalletWithdrawal, is_reversed}
use oyana_backend.Act.{World, ok, ◌>>=◌, find, update, transaction, pure}
use oyana_backend.Db.{withdrawals}
use oyana_backend.Act.Ends.{Ends, Ends-bind, Ends-any, Whole, transaction-Whole}
use oyana_backend.Wallet.Paystack.{Env, now}
use oyana_backend.Wallet.Withdrawal.Reversal.{
  settle_reversal, mark_reversed, reverse_unless_reversed, reverse_in_transaction,
  mark_withdrawal_failed_and_reverse,
}

-- nothing is left to reverse
abbrev pub is_over : Option WalletWithdrawal → Bool
is_over none = true
is_over (some d) = is_reversed d.status

abbrev pub Over : String → List WalletWithdrawal → Type 0
Over id ds = is_over (find_first (λ d. d.id == id) ds) ≡ true

module _ (env : Env) (id : String) where
  mark_withdrawal_failed_and_reverse-Over :
      (reason : String) (v : Option Value) (w : World)
      → Over id w.db.withdrawals
      → mark_withdrawal_failed_and_reverse env id reason v w ≡ (ok tt, w)
  unfolding mark_withdrawal_failed_and_reverse transaction reverse_in_transaction ◌>>=◌ find
      reverse_unless_reversed
  mark_withdrawal_failed_and_reverse-Over reason v w over =
      elim (Option-cases (find_first (λ d. d.id == id) w.db.withdrawals)) [
        | inl gone ↦ rw gone refl
        | inr (d, found) ↦
            let reversed : is_reversed d.status ≡ true = rw found at over in
            rw (found, reversed) refl
      ]

  update-Over :
      (f : WalletWithdrawal → WalletWithdrawal) (w : World)
      → ((d : WalletWithdrawal) → ((f d).id == id) ≡ (d.id == id))
      → ((d : WalletWithdrawal) → is_reversed (f d).status ≡ true)
      → Ends (λ u db. Over id db.withdrawals) (update withdrawals (λ d. d.id == id) f w)
  unfolding update
  update-Over f w same over = elim (Option-cases (find_first (λ d. d.id == id) w.db.withdrawals)) [
    | inl gone ↦ rw gone tt
    | inr (d, found) ↦
        rw found
          (rw (find_first-update_where (λ d. d.id == id) f w.db.withdrawals d same found) (over d))
  ]

  mark_reversed-Ends :
      (reason : String) (v : Option Value) (w : World)
      → Ends (λ u db. Over id db.withdrawals) (mark_reversed env id reason v w)
  unfolding mark_reversed
  mark_reversed-Ends reason v w =
      Ends-bind (λ u db. Over id db.withdrawals) (λ t db. Unit {0}) (now env) _ w (Ends-any _)
        λ time w1 h.
          Ends-bind (λ u db. Over id db.withdrawals) (λ u db. Over id db.withdrawals)
            (update withdrawals (λ d. d.id == id) _) (λ u. pure tt) w1
            (update-Over _ w1 (λ d. refl) (λ d. refl)) λ d w2 over. over

  reverse_unless_reversed-Ends :
      (reason : String) (v : Option Value) (d : WalletWithdrawal) (w : World)
      → find_first (λ d. d.id == id) w.db.withdrawals ≡ some d
      → d.id ≡ id
      → Ends (λ u db. Over id db.withdrawals) (reverse_unless_reversed env d reason v w)
  unfolding reverse_unless_reversed
  reverse_unless_reversed-Ends reason v d w found same = elim (Bool-cases (is_reversed d.status)) [
    | inl done ↦ rw done (rw found done)
    | inr open' ↦ rw open' (
        Ends-bind (λ u db. Over id db.withdrawals) (λ u db. Unit {0}) (settle_reversal env d reason)
          _ w (Ends-any _) λ u w' h. rw same (mark_reversed-Ends reason v w'))
  ]

  reverse_in_transaction-Ends :
      (reason : String) (v : Option Value) (w : World)
      → Ends (λ u db. Over id db.withdrawals) (reverse_in_transaction env id reason v w)
  unfolding reverse_in_transaction ◌>>=◌ find
  reverse_in_transaction-Ends reason v w =
      elim (Option-cases (find_first (λ d. d.id == id) w.db.withdrawals)) [
        | inl gone ↦ rw gone (rw gone refl)
        | inr (d, found) ↦ rw found (
            reverse_unless_reversed-Ends reason v d w found
              ((eq_iff _ _).0 (find_first-holds (λ d. d.id == id) w.db.withdrawals d found)))
      ]

  Over-after :
      (reason : String) (v : Option Value) (w w1 : World)
      → mark_withdrawal_failed_and_reverse env id reason v w ≡ (ok tt, w1)
      → Over id w1.db.withdrawals
  unfolding mark_withdrawal_failed_and_reverse
  Over-after reason v w w1 done = subst (Whole (λ u db. Over id db.withdrawals) w.db) done (
      transaction-Whole _ (reverse_in_transaction env id reason v) w
        (reverse_in_transaction-Ends reason v w))

-- Once a reversal has returned, another one of the same withdrawal, with any reason and payload
-- and from any world with the same withdrawals, returns and leaves that world as it was.
pub mark_withdrawal_failed_and_reverse-twice :
    (env : Env) (id reason later_reason : String) (v later_v : Option Value) (w w1 w2 : World)
    → mark_withdrawal_failed_and_reverse env id reason v w ≡ (ok tt, w1)
    → w2.db.withdrawals ≡ w1.db.withdrawals
    → mark_withdrawal_failed_and_reverse env id later_reason later_v w2 ≡ (ok tt, w2)
mark_withdrawal_failed_and_reverse-twice env id reason later_reason v later_v w w1 w2 done same =
    mark_withdrawal_failed_and_reverse-Over env id later_reason later_v w2
      (subst (Over id) (sym same) (Over-after env id reason v w w1 done))
