-- ===== src/Provider/Reads.antt =====
-- The checks of who acts write nothing.
use oyana_backend.Base.{String, List}
use oyana_backend.Db.{Db}
use oyana_backend.Profile.Enums.{UserType}
use oyana_backend.User.{assert_driver_onboarding_complete}
use oyana_backend.Provider.Access.{
  resolve_provider_id_for_profile, require_operational_provider_id, require_user_role,
}
use oyana_backend.Act.Keeps.{Keeps, keeps_rules}

module _ {P : Db → Type 0} where
  pub Keeps-assert_driver_onboarding_complete :
      (id : String) → Keeps P (assert_driver_onboarding_complete id)
  unfolding assert_driver_onboarding_complete
  Keeps-assert_driver_onboarding_complete id = search (keeps_rules)

  pub Keeps-require_user_role :
      (id : String) (preferred : List UserType) → Keeps P (require_user_role id preferred)
  unfolding require_user_role
  Keeps-require_user_role id preferred = search (keeps_rules)

  pub Keeps-resolve_provider_id_for_profile :
      (id : String) → Keeps P (resolve_provider_id_for_profile id)
  unfolding resolve_provider_id_for_profile
  Keeps-resolve_provider_id_for_profile id = search (keeps_rules)

  pub Keeps-require_operational_provider_id :
      (id : String) → Keeps P (require_operational_provider_id id)
  unfolding require_operational_provider_id
  Keeps-require_operational_provider_id id =
      search (
        keeps_rules, Keeps-assert_driver_onboarding_complete, Keeps-resolve_provider_id_for_profile,
      )
