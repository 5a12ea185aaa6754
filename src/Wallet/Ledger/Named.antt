-- ===== src/Wallet/Ledger/Named.antt =====
-- What a transaction is about, by its intent or the withdrawal in its metadata, and its reference
-- (src/wallet/wallet.service.ts).
use oyana_backend.Base.{
  ℕ, ◌+◌, ◌≤◌, ◌≡◌, refl, ⊤, ◌&&◌, String, Bool, true, false, Option, none, some, List, [], ◌∷◌,
  ◌==◌, if◌then◌else◌, arith, eq_iff, Bool-cases, inl, inr,
}
use oyana_backend.Base.Table.{All, exists}
use oyana_backend.Value.{Value, get, text}
use oyana_backend.Wallet.Schema.{WalletTransaction, TransactionType}
use oyana_backend.Wallet.Account.{
  is_text, get_funding_transaction_reference, get_withdrawal_debit_reference,
  get_withdrawal_reversal_reference,
}
use oyana_backend.Wallet.Ledger.{AreDistinct, has_reference}

abbrev IsFundingReference : Option String → String → Type 0
IsFundingReference none r = ⊤
IsFundingReference (some id) r = r ≡ get_funding_transaction_reference id

abbrev IsWithdrawalReference : Value → TransactionType → String → Type 0
IsWithdrawalReference (text id) TransactionType.withdrawal r = r ≡ get_withdrawal_debit_reference id
IsWithdrawalReference (text id) TransactionType.adjustment r =
    r ≡ get_withdrawal_reversal_reference id
IsWithdrawalReference _ _ r = ⊤

-- The reference of a transaction is made from the intent that it credits, or from the withdrawal that
-- it debits or pays back.
pub record IsNamed (t : WalletTransaction) : Type 0 where
  pub by_intent : IsFundingReference t.related_payment_intent_id t.reference
  pub by_withdrawal : IsWithdrawalReference (get t.metadata "withdrawalId") t.type t.reference

abbrev pub credits : String → WalletTransaction → Bool
credits id t = is_text t.related_payment_intent_id id

abbrev is_id : Value → String → Bool
is_id (text s) id = s == id
is_id _ id = false

abbrev is_debit : TransactionType → Bool
is_debit TransactionType.withdrawal = true
is_debit _ = false

abbrev is_repayment : TransactionType → Bool
is_repayment TransactionType.adjustment = true
is_repayment _ = false

abbrev pub debits : String → WalletTransaction → Bool
debits id t = is_debit t.type && is_id (get t.metadata "withdrawalId") id

abbrev pub repays : String → WalletTransaction → Bool
repays id t = is_repayment t.type && is_id (get t.metadata "withdrawalId") id

abbrev pub count : (WalletTransaction → Bool) → List WalletTransaction → ℕ
count p [] = 0
count p (t ∷ ts) = if p t then count p ts + 1 else count p ts

credits-reference :
    (o : Option String) (id r : String)
    → IsFundingReference o r
    → is_text o id ≡ true
    → r ≡ get_funding_transaction_reference id
credits-reference none id r n h = absurd (ground arith)
credits-reference (some i) id r n h = let same : i ≡ id = (eq_iff _ _).0 h in rw (← same) n

debits-reference :
    (v : Value) (k : TransactionType) (id r : String)
    → IsWithdrawalReference v k r
    → (is_debit k && is_id v id) ≡ true
    → r ≡ get_withdrawal_debit_reference id
debits-reference (text i) TransactionType.withdrawal id r n h =
    let same : i ≡ id = (eq_iff _ _).0 h in rw (← same) n
debits-reference _ _ id r n h = absurd (ground arith)

repays-reference :
    (v : Value) (k : TransactionType) (id r : String)
    → IsWithdrawalReference v k r
    → (is_repayment k && is_id v id) ≡ true
    → r ≡ get_withdrawal_reversal_reference id
repays-reference (text i) TransactionType.adjustment id r n h =
    let same : i ≡ id = (eq_iff _ _).0 h in rw (← same) n
repays-reference _ _ id r n h = absurd (ground arith)

module _ (p : WalletTransaction → Bool) (r : String)
    (named : (t : WalletTransaction) → IsNamed t → p t ≡ true → t.reference ≡ r) where
  count-none :
      (ts : List WalletTransaction)
      → All IsNamed ts
      → exists (has_reference r) ts ≡ false
      → count p ts ≡ 0
  count-none [] h fresh = refl
  count-none (t ∷ ts) h fresh = elim (Bool-cases (p t)) [
    | inl hit ↦
        let same : (t.reference == r) ≡ true = (eq_iff _ _).1 (named t h.0 hit) in
        absurd (ground (arith, same))
    | inr miss ↦ rw miss (count-none ts h.1 (ground arith))
  ]

  count_once : (ts : List WalletTransaction) → All IsNamed ts → AreDistinct ts → count p ts ≤ 1
  count_once [] h d = omega arith
  count_once (t ∷ ts) h d = elim (Bool-cases (p t)) [
    | inl hit ↦
        let left = count-none ts h.1 (rw (← named t h.0 hit) d.0) in rw (hit, left) (omega arith)
    | inr miss ↦ rw miss (count_once ts h.1 d.1)
  ]

module _ (id : String) (ts : List WalletTransaction) (h : All IsNamed ts) (d : AreDistinct ts) where
  pub credits_once : count (credits id) ts ≤ 1
  credits_once =
      count_once (credits id) (get_funding_transaction_reference id)
        (λ t n. credits-reference t.related_payment_intent_id id t.reference n.by_intent) ts h d

  pub debits_once : count (debits id) ts ≤ 1
  debits_once =
      count_once (debits id) (get_withdrawal_debit_reference id)
        (λ t n.
          debits-reference (get t.metadata "withdrawalId") t.type id t.reference n.by_withdrawal)
        ts h d

  pub repays_once : count (repays id) ts ≤ 1
  repays_once =
      count_once (repays id) (get_withdrawal_reversal_reference id)
        (λ t n.
          repays-reference (get t.metadata "withdrawalId") t.type id t.reference n.by_withdrawal)
        ts h d
