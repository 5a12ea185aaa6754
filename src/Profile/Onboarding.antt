-- ===== src/Profile/Onboarding.antt =====
-- src/user/driver-onboarding.util.ts, and `assertDriverOnboardingComplete` of
-- src/user/user.service.ts. `null` and `undefined` are `none`; times are milliseconds.
pub mod Steps
use oyana_backend.Base.{
  ℕ, String, Bool, true, false, not, ◌&&◌, ◌||◌, Option, none, some, List, [], ◌∷◌, if◌then◌else◌,
  is_some, ◌==◌, or_else,
}
use oyana_backend.Base.Text.{trim}
use oyana_backend.Profile.Enums.{UserRole, DriverType, PublicRole, OnboardingStep, is_completed}
use oyana_backend.Profile.Roles.{DriverProfile, is_driver_role, is_role_admin}

pub record DriverProvider : Type 0 where
  pub id : String
  pub driver_type : Option String

pub record OnboardingProfile : Type 0 where
  pub role : Option UserRole
  pub email_verified : Bool
  pub phone_e164 : Option String
  pub phone_verified : Bool
  pub notification_prompted_at : Option ℕ
  pub active_address_id : Option String
  pub contact_for_providers : List DriverProvider
  pub provider_members : List (Option DriverProvider)

unfoldable pub normalize_driver_type : Option String → Option DriverType
normalize_driver_type none = none
normalize_driver_type (some value) =
    if value == "bike"
    then some DriverType.bike
    else if value == "van"
    then some DriverType.van
    else if value == "truck"
    then some DriverType.truck
    else none

abbrev first_member : List (Option DriverProvider) → Option DriverProvider
first_member [] = none
first_member (m ∷ ms) = m

abbrev first_provider : List DriverProvider → Option DriverProvider
first_provider [] = none
first_provider (p ∷ ps) = some p

unfoldable pub resolve_active_provider : OnboardingProfile → Option DriverProvider
resolve_active_provider profile =
    or_else (first_provider profile.contact_for_providers) (first_member profile.provider_members)

abbrev pub driver_type_of : Option DriverProvider → Option DriverType
driver_type_of none = normalize_driver_type none
driver_type_of (some p) = normalize_driver_type p.driver_type

unfoldable pub has_completed_driver_registration : Option DriverProvider → Bool
has_completed_driver_registration provider = is_some (driver_type_of provider)

abbrev public_role_of : Option DriverType → PublicRole
public_role_of (some DriverType.bike) = PublicRole.rider
public_role_of (some DriverType.van) = PublicRole.van_driver
public_role_of (some DriverType.truck) = PublicRole.truck_driver
public_role_of none = PublicRole.shipper

unfoldable pub resolve_public_role : OnboardingProfile → PublicRole
unfolding resolve_active_provider normalize_driver_type
resolve_public_role profile =
    if is_role_admin profile.role
    then PublicRole.admin
    else public_role_of (driver_type_of (resolve_active_provider profile))

abbrev pub is_driver : Option UserRole → Bool
is_driver none = false
is_driver (some role) = is_driver_role role

abbrev pub skips_onboarding : Option UserRole → Bool
skips_onboarding (some UserRole.admin) = true
skips_onboarding (some UserRole.shipper) = true
skips_onboarding _ = false

-- `Boolean(text?.trim())`
abbrev pub has_text : Option String → Bool
has_text none = false
has_text (some s) = not (trim s == "")

-- `Boolean(text)`
abbrev pub is_truthy : Option String → Bool
is_truthy none = false
is_truthy (some s) = not (s == "")

unfoldable pub resolve_onboarding_step : OnboardingProfile → OnboardingStep
resolve_onboarding_step profile =
    if skips_onboarding profile.role
    then OnboardingStep.completed
    else if not profile.email_verified
    then OnboardingStep.email_verification
    else if not (has_text profile.phone_e164)
    then OnboardingStep.phone_input
    else if not profile.phone_verified
    then OnboardingStep.phone_verification
    else if not (is_driver profile.role)
        || not (has_completed_driver_registration (resolve_active_provider profile))
    then OnboardingStep.driver_registration
    else if not (is_truthy profile.active_address_id)
    then OnboardingStep.address
    else if not (is_some profile.notification_prompted_at)
    then OnboardingStep.notification_permission
    else OnboardingStep.completed

unfoldable pub is_driver_onboarding_completed : OnboardingProfile → Bool
unfolding resolve_onboarding_step
is_driver_onboarding_completed profile = is_completed (resolve_onboarding_step profile)
