-- ===== src/Profile/Tests.antt =====
-- Profiles at concrete inputs.
use oyana_backend.Base.{true, false, ⊤, ◌≡◌, refl, ◌≢◌, subst, Option, none, some, [], ◌∷◌}
use oyana_backend.Base.Text.{trim}
use oyana_backend.Profile.Enums.{
  UserType, UserRole, AccountRole, AppMode, DriverOnboardingStatus, OnboardingStep,
}
use oyana_backend.Profile.Roles.{
  ProfileRoleShape, resolve_profile_role, has_any_profile_role, has_approved_driver_mode, includes,
}
use oyana_backend.Profile.Roles.Admin.{resolve_and_check}
use oyana_backend.Profile.Onboarding.{
  OnboardingProfile, resolve_onboarding_step, has_completed_driver_registration,
  resolve_active_provider, normalize_driver_type, is_driver_onboarding_completed,
}
use oyana_backend.Profile.Onboarding.Steps.{onboarding_step_first_unmet}

-- an approved driver in driver mode
abbrev driver : ProfileRoleShape
driver = record {
  role = none;
  account_role = some AccountRole.user;
  active_app_mode = some AppMode.driver;
  driver_profile = some (record { onboarding_status = some DriverOnboardingStatus.approved });
}

abbrev nobody : ProfileRoleShape
nobody = record { role = none; account_role = none; active_app_mode = none; driver_profile = none }

abbrev IsThere : Option AccountRole → Type 0
IsThere none = ⊥
IsThere (some role) = ⊤

driver_has_role : driver.account_role ≢ none
driver_has_role e = subst IsThere e tt

resolve_and_check_example :
    (resolve_profile_role driver (UserType.individual ∷ UserType.admin ∷ []) ≡ UserType.business)
    × (has_any_profile_role driver (UserType.individual ∷ UserType.admin ∷ []) ≡ false)
unfolding has_approved_driver_mode includes
resolve_and_check_example =
    resolve_and_check driver (UserType.individual ∷ UserType.admin ∷ []) driver_has_role

-- a rider with no address yet
abbrev rider : OnboardingProfile
rider = record {
  role = some UserRole.rider;
  email_verified = true;
  phone_e164 = some "+2348012345678";
  phone_verified = true;
  notification_prompted_at = some 5;
  active_address_id = none;
  contact_for_providers = record { id = "p1"; driver_type = some "bike" } ∷ [];
  provider_members = [];
}

onboarding_step_first_unmet_example :
    (resolve_onboarding_step rider ≡ OnboardingStep.address)
    × (is_driver_onboarding_completed rider ≡ false)
unfolding trim has_completed_driver_registration resolve_active_provider normalize_driver_type
onboarding_step_first_unmet_example = onboarding_step_first_unmet rider refl
