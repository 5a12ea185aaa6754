-- ===== src/Wallet/Ledger/Withdrawal.antt =====
-- Withdrawing, and undoing a withdrawal, keeps the wallet tables sound, whatever Paystack answers.
use oyana_backend.Base.{String, Bool, ◌≡◌, refl, Option, none, some, List, ◌∷◌, ⊤, arith}
use oyana_backend.Base.Int.{pos, ◌≤ℤ◌}
use oyana_backend.Base.Table.{find_first, find_first-All}
use oyana_backend.Value.{Value}
use oyana_backend.Value.{get_field}
use oyana_backend.Wallet.Schema.{WalletWithdrawal, is_reversed}
use oyana_backend.Db.{Db, withdrawals}
use oyana_backend.Act.{Act, World, pure}
use oyana_backend.Act.Keeps.{
  Keeps, Keeps-bind, Keeps-find, Keeps-pure, Keeps-option, Keeps-if, Keeps-transaction,
}
use oyana_backend.Act.Writes.{Keeps-find_bind, Keeps-update_by, Keeps-update_many_by}
use oyana_backend.Wallet.Paystack.{Env}
use oyana_backend.Wallet.Withdrawal.Reversal.{
  mark_withdrawal_succeeded, credit_reversal, settle_reversal, mark_reversed,
  reverse_unless_reversed, reverse_in_transaction, mark_withdrawal_failed_and_reverse,
  mark_withdrawal_failed_by_reference, reversal_row,
}
use oyana_backend.Wallet.Ledger.{IsOwned, IsSoundWithdrawal}
use oyana_backend.Wallet.Ledger.Named.{IsNamed}
use oyana_backend.Wallet.Ledger.Writes.{Fact, holds_wallet, Knows, withdrawals-Knows}
use oyana_backend.Wallet.Ledger.Posting.{Keeps-credit}
use oyana_backend.Wallet.Ledger.Accounts.{Keeps-random_uuid, Keeps-now}

reversal_row-IsNamed :
    (id : String) (d : WalletWithdrawal) (reason : String) → IsNamed (reversal_row id d reason)
unfolding get_field
reversal_row-IsNamed id d reason = record { by_intent = tt; by_withdrawal = refl }

module _ (ks : List Fact) (env : Env) where
  pub Keeps-mark_withdrawal_succeeded :
      (reference : String) (v : Value)
      → Keeps (Knows ks) (mark_withdrawal_succeeded env reference v)
  unfolding mark_withdrawal_succeeded
  Keeps-mark_withdrawal_succeeded reference v = Keeps-bind _ _ (Keeps-now (Knows ks) env) λ time.
      Keeps-update_many_by withdrawals _ _ (withdrawals-Knows ks _ _ (λ d. refl) (λ d. refl))

  Keeps-mark_reversed :
      (id reason : String) (v : Option Value) → Keeps (Knows ks) (mark_reversed env id reason v)
  unfolding mark_reversed
  Keeps-mark_reversed id reason v = Keeps-bind _ _ (Keeps-now (Knows ks) env) λ time.
      Keeps-bind _ _
        (Keeps-update_by withdrawals _ _ (withdrawals-Knows ks _ _ (λ d. refl) (λ d. refl)))
        λ d. Keeps-pure tt

  Keeps-settle_reversal :
      (d : WalletWithdrawal) (reason : String)
      → pos 1 ≤ℤ d.amount_minor
      → ((db : Db) → Knows ks db → IsOwned db.wallets d.wallet_account_id)
      → Keeps (Knows ks) (settle_reversal env d reason)
  unfolding settle_reversal credit_reversal
  Keeps-settle_reversal d reason positive owned = Keeps-bind _ _ (Keeps-find _ _) λ existing.
      Keeps-option existing _ _
        (Keeps-bind _ _ (Keeps-random_uuid (Knows ks) env) λ id.
          Keeps-credit ks (reversal_row id d reason) refl (reversal_row-IsNamed id d reason) _ _
            d.amount_minor refl refl (omega arith) owned (λ r. Keeps-pure tt))
        (λ t. Keeps-pure tt)

  Keeps-reverse_unless_reversed :
      (d : WalletWithdrawal) (reason : String) (v : Option Value)
      → pos 1 ≤ℤ d.amount_minor
      → ((db : Db) → Knows ks db → IsOwned db.wallets d.wallet_account_id)
      → Keeps (Knows ks) (reverse_unless_reversed env d reason v)
  unfolding reverse_unless_reversed
  Keeps-reverse_unless_reversed d reason v positive owned =
      Keeps-if (is_reversed d.status) _ _ (Keeps-pure tt) (
        Keeps-bind _ _ (Keeps-settle_reversal d reason positive owned)
          λ u. Keeps-mark_reversed d.id reason v)

module _ (ks : List Fact) (env : Env) where
  reverse_found :
      (reason : String) (v : Option Value) (w : World) (p : WalletWithdrawal → Bool)
      (o : Option WalletWithdrawal)
      → Knows ks w.db
      → find_first p w.db.withdrawals ≡ o
      → Knows ks (
          (let m : Act ⊤ = elim o [
            | none ↦ pure tt
            | some d ↦ reverse_unless_reversed env d reason v
          ] in
            m w).1.db)
  reverse_found reason v w p none h found = h
  reverse_found reason v w p (some d) h found =
      let s =
        find_first-All (IsSoundWithdrawal w.db.wallets) p w.db.withdrawals d h.0.withdrawals_sound
          found in
      let h' =
        (Keeps-reverse_unless_reversed (holds_wallet d.wallet_account_id ∷ ks) env d reason v
            s.positive (λ d k. k.1.0)).at
          w (h.0, (s.owned, h.1)) in
      (h'.0, h'.1.1)

  pub Keeps-mark_withdrawal_failed_and_reverse :
      (id reason : String) (v : Option Value)
      → Keeps (Knows ks) (mark_withdrawal_failed_and_reverse env id reason v)
  unfolding mark_withdrawal_failed_and_reverse reverse_in_transaction
  Keeps-mark_withdrawal_failed_and_reverse id reason v =
      Keeps-transaction _
        (Keeps-find_bind withdrawals _ _ (λ w h. reverse_found reason v w _ _ h refl))

  pub Keeps-mark_withdrawal_failed_by_reference :
      (reference reason : String) (v : Value)
      → Keeps (Knows ks) (mark_withdrawal_failed_by_reference env reference reason v)
  unfolding mark_withdrawal_failed_by_reference
  Keeps-mark_withdrawal_failed_by_reference reference reason v =
      Keeps-bind _ _ (Keeps-find _ _) λ found.
        Keeps-option found _ _ (Keeps-pure tt)
          λ d. Keeps-mark_withdrawal_failed_and_reverse d.id reason (some v)
