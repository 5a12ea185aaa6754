-- ===== src/Profile/Onboarding/Steps.antt =====
-- The onboarding step that is reported is the first one that is not met
-- (src/user/driver-onboarding.util.ts).
use oyana_backend.Base.{Bool, true, false, ◌&&◌, ◌≡◌, List, [], ◌∷◌, arith, if◌then◌else◌, is_some}
use oyana_backend.Profile.Enums.{OnboardingStep}
use oyana_backend.Profile.Onboarding.{
  OnboardingProfile, resolve_onboarding_step, is_driver_onboarding_completed, skips_onboarding,
  is_driver, has_text, is_truthy, has_completed_driver_registration, resolve_active_provider,
}

-- The requirements of a driver, in the order in which the app asks for them.
abbrev pub requirements : OnboardingProfile → List (OnboardingStep × Bool)
requirements p =
    (OnboardingStep.email_verification, p.email_verified)
    ∷ (OnboardingStep.phone_input, has_text p.phone_e164)
    ∷ (OnboardingStep.phone_verification, p.phone_verified)
    ∷ (
      OnboardingStep.driver_registration,
      is_driver p.role && has_completed_driver_registration (resolve_active_provider p),
    )
    ∷ (OnboardingStep.address, is_truthy p.active_address_id)
    ∷ (OnboardingStep.notification_permission, is_some p.notification_prompted_at)
    ∷ []

abbrev pub first_unmet : List (OnboardingStep × Bool) → OnboardingStep
first_unmet [] = OnboardingStep.completed
first_unmet ((step, met) ∷ rest) = if met then first_unmet rest else step

abbrev pub all_met : List (OnboardingStep × Bool) → Bool
all_met [] = true
all_met ((step, met) ∷ rest) = met && all_met rest

-- For anyone but shippers and administrators the step is the first unmet requirement, and
-- onboarding counts as completed exactly if every requirement is met.
pub onboarding_step_first_unmet :
    (p : OnboardingProfile)
    → skips_onboarding p.role ≡ false
    → (resolve_onboarding_step p ≡ first_unmet (requirements p))
      × (is_driver_onboarding_completed p ≡ all_met (requirements p))
unfolding is_driver_onboarding_completed
onboarding_step_first_unmet p h = ground arith
