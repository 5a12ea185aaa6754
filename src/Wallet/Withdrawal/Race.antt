-- ===== src/Wallet/Withdrawal/Race.antt =====
-- Two withdrawals from one wallet whose transactions overlap (`createWalletWithdrawal` of
-- src/wallet/wallet.service.ts): each reads the balance and checks it, and later writes. The read
-- takes no lock, so the reads of both may come before the writes of either.
use oyana_backend.Base.{String, false, ◌≡◌, refl, subst, ap, ◌∙◌, Option, some, List, ◌==◌}
use oyana_backend.Base.Int.{ℤ, ltb_ℤ, ◌-ℤ◌}
use oyana_backend.Base.Table.{find_first, find_first-update_where}
use oyana_backend.Wallet.Schema.{WalletAccount, WalletWithdrawal}
use oyana_backend.Act.{World, Result, ok}
use oyana_backend.Act.Ends.{Ends-ok}
use oyana_backend.Wallet.Paystack.{Env}
use oyana_backend.Wallet.Withdrawal.{debit_covered}
use oyana_backend.Wallet.Withdrawal.Destination.{BankDestination}
use oyana_backend.Wallet.Withdrawal.Debited.{take_out, Holds, debit_covered-Ends}

-- what a request wants
pub record Payout : Type 0 where
  pub owner : String
  pub amount : ℤ
  pub currency : String
  pub reason : Option String
  pub destination : BankDestination

-- how far a request's transaction has come
pub data Phase : Type 0 where
  started checked : Phase
  finished : Result WalletWithdrawal → Phase

-- what a transaction does after its check
abbrev pub writes : Env → String → Payout → World → Result WalletWithdrawal × World
writes env k r w = debit_covered env r.owner k r.amount r.currency r.reason r.destination w

module _ (env : Env) (k : String) (p q : Payout) where
  -- One transaction reads and passes the check, or writes and commits; the other stands still.
  pub data Step : World → Phase → Phase → World → Phase → Phase → Type 0 where
    check_first :
        {w : World} {b : Phase}
        → Holds k p.amount w.db.wallets
        → Step w Phase.started b w Phase.checked b
    check_second :
        {w : World} {a : Phase}
        → Holds k q.amount w.db.wallets
        → Step w a Phase.started w a Phase.checked
    write_first :
        {w : World} {b : Phase}
        → Step w Phase.checked b (writes env k p w).1 (Phase.finished (writes env k p w).0) b
    write_second :
        {w : World} {a : Phase}
        → Step w a Phase.checked (writes env k q w).1 a (Phase.finished (writes env k q w).0)

  pub data Steps : World → Phase → Phase → World → Phase → Phase → Type 0 where
    stop : {w : World} {a b : Phase} → Steps w a b w a b
    step :
        {w w' w'' : World} {a b a' b' a'' b'' : Phase}
        → Step w a b w' a' b'
        → Steps w' a' b' w'' a'' b''
        → Steps w a b w'' a'' b''

abbrev pub found_in : World → String → Option WalletAccount
found_in w k = find_first (λ a. a.id == k) w.db.wallets

take_out-found :
    (k : String) (x : ℤ) (ws : List WalletAccount) (a : WalletAccount)
    → find_first (λ a. a.id == k) ws ≡ some a
    → find_first (λ a. a.id == k) (take_out k x ws)
      ≡ some (record a { balance_minor = a.balance_minor -ℤ x })
take_out-found k x ws a found =
    find_first-update_where (λ a. a.id == k)
      (λ a. record a { balance_minor = a.balance_minor -ℤ x }) ws a (λ x. refl) found

module _ (env : Env) (k : String) (p q : Payout) (w w1 w2 : World) (d e : WalletWithdrawal)
    (first : writes env k p w ≡ (ok d, w1)) (second : writes env k q w1 ≡ (ok e, w2)) where
  race-Steps :
      Holds k p.amount w.db.wallets
      → Holds k q.amount w.db.wallets
      → Steps env k p q w Phase.started Phase.started w2
          (Phase.finished (ok d))
          (Phase.finished (ok e))
  race-Steps hp hq =
      subst
        (λ y.
          Steps env k p q w Phase.started Phase.started y.1 (Phase.finished (ok d))
            (Phase.finished y.0))
        second
        (subst
          (λ x.
            Steps env k p q w Phase.started Phase.started (writes env k q x.1).1
              (Phase.finished x.0) (Phase.finished (writes env k q x.1).0))
          first
          (step (check_first hp)
            (step (check_second hq) (step write_first (step write_second stop)))))

  race-wallets : w2.db.wallets ≡ take_out k q.amount (take_out k p.amount w.db.wallets)
  race-wallets =
      Ends-ok (λ e d. d.wallets ≡ take_out k q.amount w1.db.wallets) (writes env k q w1) e w2
        (debit_covered-Ends env w1.db.wallets q.owner k q.amount q.currency q.reason q.destination
          w1 refl)
        second
      ∙ ap (take_out k q.amount) (
          Ends-ok (λ e d. d.wallets ≡ take_out k p.amount w.db.wallets) (writes env k p w) d w1
            (debit_covered-Ends env w.db.wallets p.owner k p.amount p.currency p.reason
              p.destination w refl)
            first)

-- Two withdrawals that the balance covers one at a time, and whose writes succeed, can both finish
-- by steps that start with both reads: the balance is then lower by the sum of the two amounts,
-- which it need not cover.
pub race-overdraws :
    (env : Env) (k : String) (p q : Payout) (w w1 w2 : World) (d e : WalletWithdrawal)
    (a : WalletAccount)
    → found_in w k ≡ some a
    → ltb_ℤ a.balance_minor p.amount ≡ false
    → ltb_ℤ a.balance_minor q.amount ≡ false
    → writes env k p w ≡ (ok d, w1)
    → writes env k q w1 ≡ (ok e, w2)
    → Steps env k p q w Phase.started Phase.started w2
        (Phase.finished (ok d))
        (Phase.finished (ok e))
      × (found_in w2 k
          ≡ some (record a { balance_minor = a.balance_minor -ℤ p.amount -ℤ q.amount }))
race-overdraws env k p q w w1 w2 d e a found hp hq first second = (
  race-Steps env k p q w w1 w2 d e first second (a, found, hp) (a, found, hq),
  rw (race-wallets env k p q w w1 w2 d e first second) (
      take_out-found k q.amount (take_out k p.amount w.db.wallets) _
        (take_out-found k p.amount w.db.wallets a found)),
)
