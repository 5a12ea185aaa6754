-- ===== src/User.antt =====
-- src/user/user.service.ts: who may act as a driver.
use oyana_backend.Base.{String, not, ◌&&◌, ⊤, ◌==◌}
use oyana_backend.Profile.Roles.{is_approved}
use oyana_backend.Profile.Onboarding.{is_driver, is_driver_onboarding_completed}
use oyana_backend.Profile.Schema.{driver_shape, onboarding_shape}
use oyana_backend.Act.{Act, not_found, forbidden, or_throw, throw_if, find, ◌>>=◌}
use oyana_backend.Db.{profiles}

-- `UserService.assertDriverOnboardingComplete`
unfoldable pub assert_driver_onboarding_complete : String → Act ⊤
assert_driver_onboarding_complete profile_id = do
  found ← find profiles (λ p. p.id == profile_id)
  profile ← or_throw found (not_found "Profile not found")
  let legacy_approved =
      is_driver profile.role && is_driver_onboarding_completed (onboarding_shape profile)
  throw_if (not (is_approved (driver_shape profile.driver_profile)) && not legacy_approved)
      (forbidden "Complete driver onboarding and approval before accessing driver operations.")
