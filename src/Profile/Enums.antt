-- ===== src/Profile/Enums.antt =====
-- The enums of src/graphql/enums.ts that profiles use, with `===` on each.
use oyana_backend.Base.{Bool, true, false}

pub data UserType : Type 0 where
  individual business admin : UserType

pub data UserRole : Type 0 where
  shipper rider van_driver truck_driver admin : UserRole

pub data AccountRole : Type 0 where
  user admin : AccountRole

pub data AppMode : Type 0 where
  shipper driver : AppMode

pub data DriverOnboardingStatus : Type 0 where
  not_started draft in_review approved rejected : DriverOnboardingStatus

pub data DriverType : Type 0 where
  bike van truck : DriverType

pub data PublicRole : Type 0 where
  shipper rider van_driver truck_driver admin : PublicRole

pub data OnboardingStep : Type 0 where
  email_verification phone_input phone_verification driver_registration : OnboardingStep
  address notification_permission completed : OnboardingStep

abbrev pub eq_user_type : UserType → UserType → Bool
eq_user_type UserType.individual UserType.individual = true
eq_user_type UserType.business UserType.business = true
eq_user_type UserType.admin UserType.admin = true
eq_user_type _ _ = false

abbrev pub is_completed : OnboardingStep → Bool
is_completed OnboardingStep.completed = true
is_completed _ = false
