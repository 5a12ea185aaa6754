-- ===== src/Profile/Roles/Admin.antt =====
-- Who is resolved as what (src/auth/utils/roles.util.ts), against one description of a user's type.
use oyana_backend.Base.{
  Bool, ◌||◌, ◌&&◌, not, ◌≡◌, refl, ◌≢◌, none, List, [], ◌∷◌, arith, is_some, if◌then◌else◌,
}
use oyana_backend.Profile.Enums.{UserType, eq_user_type}
use oyana_backend.Profile.Roles.{
  ProfileRoleShape, includes, is_account_admin, is_role_admin, has_approved_driver_mode,
  is_driver_user_role, normalize_profile_roles, resolve_profile_role, has_any_profile_role,
  first_preferred, some_includes,
}

abbrev pub is_admin : ProfileRoleShape → Bool
is_admin profile = is_account_admin profile.account_role || is_role_admin profile.role

-- Approved and in driver mode, or a driver of the older data with no driver profile.
abbrev pub is_driver : ProfileRoleShape → Bool
is_driver profile =
    has_approved_driver_mode profile
    || (is_driver_user_role profile.role && not (is_some profile.driver_profile))

abbrev pub user_type : ProfileRoleShape → UserType
user_type profile =
    if is_admin profile
    then UserType.admin
    else if is_driver profile
    then UserType.business
    else UserType.individual

pub normalize_single :
    (profile : ProfileRoleShape)
    → profile.account_role ≢ none
    → normalize_profile_roles profile ≡ user_type profile ∷ []
unfolding normalize_profile_roles
normalize_single profile h = ground arith

first_preferred_single :
    (t : UserType) (preferred : List UserType) → first_preferred (t ∷ []) preferred ≡ t
unfolding first_preferred
first_preferred_single t [] = refl
first_preferred_single t (p ∷ preferred) = ground (arith, first_preferred_single t preferred)

eq_user_type_comm : (a b : UserType) → eq_user_type a b ≡ eq_user_type b a
eq_user_type_comm a b = ground arith

some_includes_single :
    (t : UserType) (required : List UserType)
    → some_includes (t ∷ []) required ≡ includes required t
unfolding some_includes
some_includes_single t [] = refl
some_includes_single t (p ∷ required) =
    ground (arith, some_includes_single t required, eq_user_type_comm t p)

-- With an account role set, a profile is resolved as its user type, whatever roles the caller
-- prefers, and it passes a role check exactly if its user type is among the required ones.
pub resolve_and_check :
    (profile : ProfileRoleShape) (preferred : List UserType)
    → profile.account_role ≢ none
    → (resolve_profile_role profile preferred ≡ user_type profile)
      × (has_any_profile_role profile preferred ≡ includes preferred (user_type profile))
unfolding resolve_profile_role has_any_profile_role
resolve_and_check profile preferred h = ground (
  arith,
  normalize_single profile h,
  first_preferred_single (user_type profile) preferred,
  some_includes_single (user_type profile) preferred,
)
