-- ===== src/Wallet/Account/Compliance.antt =====
-- What `getWalletCompliance` of src/wallet/wallet.service.ts tells the client, and what the guards
-- of funding and withdrawing then do.
use oyana_backend.Base.{
  String, ◌⊎◌, Bool, false, not, ◌&&◌, ◌≡◌, refl, none, some, [], ◌∷◌, ◌==◌, Bool-cases,
  Option-cases, inl, inr, arith,
}
use oyana_backend.Base.Table.{find_first}
use oyana_backend.Profile.Enums.{UserType}
use oyana_backend.Profile.Roles.{has_any_profile_role, is_approved}
use oyana_backend.Profile.Onboarding.{is_driver, is_driver_onboarding_completed}
use oyana_backend.Profile.Schema.{Profile, role_shape, onboarding_shape}
use oyana_backend.Profile.Schema.{driver_shape}
use oyana_backend.Act.{Error, Result, ok, err, World, ◌>>=◌, find, forbidden, not_found}
use oyana_backend.User.{assert_driver_onboarding_complete}
use oyana_backend.Wallet.Account.{
  require_profile, assert_phone_verified, get_wallet_compliance, WalletCompliance,
}
use oyana_backend.Wallet.Paystack.{Env}
use oyana_backend.Wallet.Funding.{
  CreateWalletFundingInput, create_wallet_funding, confirm_wallet_funding,
}
use oyana_backend.Wallet.Withdrawal.{CreateWalletWithdrawalInput, create_wallet_withdrawal}

-- An error, and nothing has changed.
abbrev pub IsRefused : {A : Type 0} → Result A × World → World → Type 0
IsRefused {A = A} r w = (e : Error) × (r ≡ (err e, w))

module _ (owner : String) (w : World) (p : Profile)
    (found : find_first (λ p. p.id == owner) w.db.profiles ≡ some p) where
  -- a profile is returned as it is stored, or the driver is not approved
  require_profile-cases :
      (require_profile owner w ≡ (ok p, w)) ⊎ IsRefused (require_profile owner w) w
  unfolding require_profile assert_driver_onboarding_complete ◌>>=◌ find
  require_profile-cases =
      elim (Bool-cases (has_any_profile_role (role_shape p) (UserType.business ∷ []))) [
        | inl r ↦
            elim (Bool-cases (
              not (is_approved (driver_shape p.driver_profile))
              && not (is_driver p.role && is_driver_onboarding_completed (onboarding_shape p)))) [
                | inl b ↦ inr (
                  forbidden
                      "Complete driver onboarding and approval before accessing driver operations.",
                  rw (found, r, found, b) refl,
                )
                | inr b ↦ inl (rw (found, r, found, b) refl)
              ]
        | inr r ↦ inl (rw (found, r) refl)
      ]

  assert_phone_verified-unverified :
      p.phone_verified ≡ false → IsRefused (assert_phone_verified owner w) w
  unfolding assert_phone_verified ◌>>=◌
  assert_phone_verified-unverified unverified = elim require_profile-cases [
    | inl e ↦ (
      forbidden "Phone verification is required before wallet funding or withdrawal",
      rw (e, unverified) refl,
    )
    | inr (e, h) ↦ (e, rw h refl)
  ]

-- whether the answer lets the client fund and withdraw
abbrev pub allows : Result WalletCompliance → Bool
allows (ok c) = c.can_fund && c.can_withdraw
allows (err e) = false

module _ (owner : String) (w : World) where
  compliance-unverified :
      (p : Profile)
      → find_first (λ p. p.id == owner) w.db.profiles ≡ some p
      → allows (get_wallet_compliance owner w).0 ≡ false
      → p.phone_verified ≡ false
  unfolding get_wallet_compliance ◌>>=◌ find
  compliance-unverified p found h = elim (Bool-cases p.phone_verified) [
    | inl verified ↦ absurd (ground arith)
    | inr unverified ↦ unverified
  ]

  assert_phone_verified-unknown :
      find_first (λ p. p.id == owner) w.db.profiles ≡ none
      → IsRefused (assert_phone_verified owner w) w
  unfolding assert_phone_verified require_profile ◌>>=◌ find
  assert_phone_verified-unknown unknown = (not_found "Profile not found", rw unknown refl)

  not_compliant-IsRefused :
      allows (get_wallet_compliance owner w).0 ≡ false → IsRefused (assert_phone_verified owner w) w
  not_compliant-IsRefused h = elim (Option-cases (find_first (λ p. p.id == owner) w.db.profiles)) [
    | inl unknown ↦ assert_phone_verified-unknown unknown
    | inr (p, found) ↦
        assert_phone_verified-unverified owner w p found (compliance-unverified p found h)
  ]

-- Whom the compliance query does not allow to fund and withdraw is refused by funding, by the
-- confirmation of a funding and by withdrawing, whatever the input, and nothing changes.
pub get_wallet_compliance-IsRefused :
    (env : Env) (owner : String) (funding : CreateWalletFundingInput) (reference : String)
    (withdrawal : CreateWalletWithdrawalInput) (w : World)
    → allows (get_wallet_compliance owner w).0 ≡ false
    → IsRefused (create_wallet_funding env owner funding w) w
      × IsRefused (confirm_wallet_funding env owner reference w) w
      × IsRefused (create_wallet_withdrawal env owner withdrawal w) w
unfolding create_wallet_funding confirm_wallet_funding create_wallet_withdrawal ◌>>=◌
get_wallet_compliance-IsRefused env owner funding reference withdrawal w h =
    let (e, refused) = not_compliant-IsRefused owner w h in
    ((e, rw refused refl), (e, rw refused refl), (e, rw refused refl))
