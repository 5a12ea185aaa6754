-- ===== src/Provider/Access.antt =====
-- Who acts, and for which provider: the checks that market-place.service.ts, dispatch.service.ts and
-- shipments.service.ts each have a copy of.
use oyana_backend.Base.{
  String, Bool, true, false, ◌&&◌, Option, none, some, List, if◌then◌else◌, ◌==◌, or_else,
}
use oyana_backend.Db.{profiles, providers, members}
use oyana_backend.Profile.Enums.{UserType}
use oyana_backend.Profile.Roles.{resolve_profile_role}
use oyana_backend.Profile.Schema.{Profile, role_shape}
use oyana_backend.Provider.Schema.{Provider, ProviderMember}
use oyana_backend.User.{assert_driver_onboarding_complete}
use oyana_backend.Act.{Act, pure, not_found, forbidden, or_throw, find, find_oldest, ◌>>=◌, ◌>>◌}

-- a text that is there and not empty
abbrev pub non_empty : Option String → Option String
non_empty none = none
non_empty (some s) = if s == "" then none else some s

abbrev pub is_text : Option String → String → Bool
is_text none s = false
is_text (some t) s = t == s

-- `driverProfile?.providerId`
abbrev driver_provider : Option Profile → Option String
driver_provider none = none
driver_provider (some p) = elim p.driver_profile [ none ↦ none | some d ↦ non_empty d.provider_id ]

abbrev provider_id_of : Option Provider → Option String
provider_id_of none = none
provider_id_of (some p) = non_empty (some p.id)

abbrev member_provider : Option ProviderMember → Option String
member_provider none = none
member_provider (some m) = some m.provider_id

-- the driver's own provider, else the one that the profile is the contact of, else the oldest one
-- of which it is an active member
unfoldable pub resolve_provider_id_for_profile : String → Act (Option String)
resolve_provider_id_for_profile profile_id = do
  profile ← find profiles (λ p. p.id == profile_id)
  provider ← find providers (λ p. is_text p.profile_id profile_id)
  member ← find_oldest members (λ m. m.profile_id == profile_id && m.status == "active")
  pure (
      or_else (driver_provider profile)
        (or_else (provider_id_of provider) (member_provider member)))

unfoldable pub require_operational_provider_id : String → Act String
require_operational_provider_id profile_id = do
  assert_driver_onboarding_complete profile_id
  provider_id ← resolve_provider_id_for_profile profile_id
  or_throw (non_empty provider_id) (forbidden "No provider account found for this user")

unfoldable pub require_user_role : String → List UserType → Act UserType
require_user_role profile_id preferred_roles = do
  found ← find profiles (λ p. p.id == profile_id)
  profile ← or_throw found (not_found "Profile not found")
  pure (resolve_profile_role (role_shape profile) preferred_roles)

abbrev pub is_admin : UserType → Bool
is_admin UserType.admin = true
is_admin _ = false
