-- ===== src/Notifications/Returns.antt =====
-- Notifications never stop the caller (src/notifications/notifications.service.ts).
use oyana_backend.Base.{String, ◌≡◌, refl, ◌==◌, Option, none, some, List, [], ◌∷◌, ⊤}
use oyana_backend.Base.Table.{find_first}
use oyana_backend.Provider.Schema.{Provider}
use oyana_backend.Notifications.Push.{NotificationInput}
use oyana_backend.Notifications.{
  NotificationContent, create_normalized, create_many_notifications, create_notification,
  notify_profile, notify_admins, notify_customer, notify_provider_team, persist_and_push,
}
use oyana_backend.Act.{Act, Result, ok, err, World, pure, recover, try_catch, find_all, find, ◌>>=◌}
use oyana_backend.Outside.{Outside}

caught : (r : Result ⊤) (w : World) → (recover r (λ e. pure tt) w).0 ≡ ok tt
caught (ok a) w = refl
caught (err e) w = refl

found-returns :
    (o : Option Provider) (f : Provider → Act ⊤) (w : World)
    → ((p : Provider) → (f p w).0 ≡ ok tt)
    → (elim o as (λ x. Act ⊤) [ none ↦ pure tt | some p ↦ f p ] w).0 ≡ ok tt
found-returns none f w h = refl
found-returns (some p) f w h = h p

module _ (out : Outside) where
  create_normalized-returns :
      (xs : List NotificationInput) (w : World) → (create_normalized out xs w).0 ≡ ok tt
  unfolding create_normalized try_catch
  create_normalized-returns [] w = refl
  create_normalized-returns (x ∷ xs) w =
      caught (persist_and_push out (x ∷ xs) w).0 (persist_and_push out (x ∷ xs) w).1

  create_many-returns :
      (xs : List NotificationInput) (w : World) → (create_many_notifications out xs w).0 ≡ ok tt
  unfolding create_many_notifications
  create_many-returns xs w = create_normalized-returns _ w

  -- Each of them returns, whatever the content, the tables and the answers of the push service: none
  -- throws.
  pub notify-returns :
      (id : String) (content : NotificationContent) (w : World)
      → ((notify_customer out id content w).0 ≡ ok tt)
        × (((notify_admins out content w).0 ≡ ok tt)
            × ((notify_provider_team out id content w).0 ≡ ok tt))
  unfolding notify_customer notify_profile create_notification notify_admins notify_provider_team
      ◌>>=◌ find_all find
  notify-returns id content w = (
    create_many-returns _ w,
    (
      create_many-returns _ w,
      found-returns (find_first (λ p. p.id == id) w.db.providers) _ w
          (λ p. create_many-returns _ w),
    ),
  )
