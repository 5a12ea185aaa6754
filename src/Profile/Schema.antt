-- ===== src/Profile/Schema.antt =====
-- Profiles and driver profiles, with the columns that the modelled services read
-- (prisma/schemas/profile.prisma and driver.prisma).
use oyana_backend.Base.{ℕ, String, Bool, Option, none, some, List}
use oyana_backend.Base.Int.{ℤ}
use oyana_backend.Profile.Enums.{UserRole, AccountRole, AppMode, DriverOnboardingStatus}
use oyana_backend.Profile.Roles.{DriverProfile, ProfileRoleShape}
use oyana_backend.Profile.Onboarding.{DriverProvider, OnboardingProfile}

-- A coordinate is counted in a fixed fraction of a degree.
pub record DriverPresence : Type 0 where
  pub is_online : Bool
  pub lat : Option ℤ
  pub lng : Option ℤ
  pub last_heartbeat_at : Option ℕ

pub record UserAddress : Type 0 where
  pub id : String
  pub profile_id : String
  pub address : String
  pub city : String
  pub lat : Option ℤ
  pub lng : Option ℤ

pub record DriverRow : Type 0 where
  pub provider_id : Option String
  pub onboarding_status : DriverOnboardingStatus
  pub can_dispatch : Bool
  pub can_freight : Bool
  pub presence : Option DriverPresence

-- the column that the role checks select
abbrev pub driver_shape : Option DriverRow → Option DriverProfile
driver_shape none = none
driver_shape (some d) = some (record { onboarding_status = some d.onboarding_status })

pub record Profile : Type 0 where
  pub id : String
  pub email : Option String
  pub phone_e164 : Option String
  pub phone_verified : Bool
  pub email_verified : Bool
  pub role : Option UserRole
  pub account_role : AccountRole
  pub active_app_mode : AppMode
  pub driver_profile : Option DriverRow
  pub notification_prompted_at : Option ℕ
  pub active_address_id : Option String
  pub contact_for_providers : List DriverProvider
  pub provider_members : List (Option DriverProvider)
  pub notifications_enabled : Bool
  pub push_permission_granted : Bool

-- the columns that `hasAnyProfileRole` selects
abbrev pub role_shape : Profile → ProfileRoleShape
role_shape p = record {
  role = p.role;
  account_role = some p.account_role;
  active_app_mode = some p.active_app_mode;
  driver_profile = driver_shape p.driver_profile;
}

-- `driverOnboardingSelection`
abbrev pub onboarding_shape : Profile → OnboardingProfile
onboarding_shape p = record {
  role = p.role;
  email_verified = p.email_verified;
  phone_e164 = p.phone_e164;
  phone_verified = p.phone_verified;
  notification_prompted_at = p.notification_prompted_at;
  active_address_id = p.active_address_id;
  contact_for_providers = p.contact_for_providers;
  provider_members = p.provider_members;
}
