-- ===== src/Profile/Roles.antt =====
-- src/auth/utils/roles.util.ts: which user types a profile has. `null` and `undefined` are `none`.
pub mod Admin
use oyana_backend.Base.{
  Bool, true, false, not, ◌&&◌, ◌||◌, Option, none, some, List, [], ◌∷◌, if◌then◌else◌, is_some,
}
use oyana_backend.Base.Table.{find_many}
use oyana_backend.Profile.Enums.{
  UserType, UserRole, AccountRole, AppMode, DriverOnboardingStatus, eq_user_type,
}

pub record DriverProfile : Type 0 where
  pub onboarding_status : Option DriverOnboardingStatus

pub record ProfileRoleShape : Type 0 where
  pub role : Option UserRole
  pub account_role : Option AccountRole
  pub active_app_mode : Option AppMode
  pub driver_profile : Option DriverProfile

abbrev all_user_types : List UserType
all_user_types = UserType.individual ∷ UserType.business ∷ UserType.admin ∷ []

-- `xs.includes(x)`
unfoldable pub includes : List UserType → UserType → Bool
includes [] t = false
includes (x ∷ xs) t = eq_user_type x t || includes xs t

-- `DRIVER_USER_ROLES.has(value)`
abbrev pub is_driver_role : UserRole → Bool
is_driver_role UserRole.rider = true
is_driver_role UserRole.van_driver = true
is_driver_role UserRole.truck_driver = true
is_driver_role _ = false

unfoldable pub is_driver_user_role : Option UserRole → Bool
is_driver_user_role none = false
is_driver_user_role (some role) = is_driver_role role

abbrev pub is_approved : Option DriverProfile → Bool
is_approved none = false
is_approved (some d) = elim d.onboarding_status [
  | none ↦ false
  | some DriverOnboardingStatus.approved ↦ true
  | some _ ↦ false
]

abbrev is_driver_mode : Option AppMode → Bool
is_driver_mode (some AppMode.driver) = true
is_driver_mode _ = false

unfoldable pub has_approved_driver_mode : ProfileRoleShape → Bool
has_approved_driver_mode profile =
    is_driver_mode profile.active_app_mode && is_approved profile.driver_profile

abbrev pub is_account_admin : Option AccountRole → Bool
is_account_admin (some AccountRole.admin) = true
is_account_admin _ = false

abbrev is_account_user : Option AccountRole → Bool
is_account_user (some AccountRole.user) = true
is_account_user _ = false

abbrev pub is_role_admin : Option UserRole → Bool
is_role_admin (some UserRole.admin) = true
is_role_admin _ = false

abbrev is_role_shipper : Option UserRole → Bool
is_role_shipper (some UserRole.shipper) = true
is_role_shipper _ = false

unfoldable pub map_user_role_to_user_types : ProfileRoleShape → List UserType
unfolding has_approved_driver_mode is_driver_user_role
map_user_role_to_user_types profile =
    if is_account_admin profile.account_role || is_role_admin profile.role
    then UserType.admin ∷ []
    else if has_approved_driver_mode profile
    then UserType.business ∷ []
    else if is_driver_user_role profile.role && not (is_some profile.driver_profile)
    then UserType.business ∷ []
    else if is_account_user profile.account_role || is_role_shipper profile.role
    then UserType.individual ∷ []
    else []

unfoldable pub normalize_profile_roles : ProfileRoleShape → List UserType
unfolding map_user_role_to_user_types includes find_many
normalize_profile_roles profile =
    find_many (includes all_user_types) (map_user_role_to_user_types profile)

abbrev head_or : List UserType → UserType → UserType
head_or [] d = d
head_or (x ∷ xs) d = x

-- the loop over `preferredRoles`
first_preferred : List UserType → List UserType → UserType
unfolding includes
first_preferred roles [] = head_or roles UserType.individual
first_preferred roles (p ∷ preferred) =
    let rest = first_preferred roles preferred in if includes roles p then p else rest

abbrev is_nil : List UserType → Bool
is_nil [] = true
is_nil (x ∷ xs) = false

unfoldable pub resolve_profile_role : ProfileRoleShape → List UserType → UserType
unfolding normalize_profile_roles first_preferred
resolve_profile_role profile preferred =
    let roles = normalize_profile_roles profile in
    if is_nil roles then head_or preferred UserType.individual else first_preferred roles preferred

-- `requiredRoles.some(…)`
some_includes : List UserType → List UserType → Bool
unfolding includes
some_includes roles [] = false
some_includes roles (r ∷ required) = includes roles r || some_includes roles required

unfoldable pub has_any_profile_role : ProfileRoleShape → List UserType → Bool
unfolding normalize_profile_roles some_includes
has_any_profile_role profile required = some_includes (normalize_profile_roles profile) required
