-- ===== src/Notifications/Quiet.antt =====
-- What notifications leave alone, and that they never throw
-- (src/notifications/notifications.service.ts).
use oyana_backend.Base.{String, List, [], ◌∷◌}
use oyana_backend.Db.{Db, notifications, devices}
use oyana_backend.Notifications.Schema.{Notification, NotificationAudience, PushDevice, PushMessage}
use oyana_backend.Notifications.Push.{
  NotificationInput, send_chunk, send_chunks, deactivate, send_messages,
  dispatch_push_notifications,
}
use oyana_backend.Notifications.{
  NotificationContent, insert_notifications, persist_and_push, create_normalized,
  create_many_notifications, create_notification, notify_profile, notify_admins, notify_customer,
  notify_provider_team,
}
use oyana_backend.Act.Keeps.{
  Keeps, Keeps-bind, Keeps-find, Keeps-ask, Keeps-option, Keeps-pure, Keeps-try_catch, keeps_rules,
}
use oyana_backend.Act.Writes.{Keeps-create_by, Keeps-update_many_by}
use oyana_backend.Outside.{Outside, new_id}

-- `P` says nothing of notifications and push devices.
pub record IgnoresNotices (P : Db → Type 0) : Type 0 where
  pub notifications : (d : Db) (l : List Notification) → P d → P (record d { notifications = l })
  pub devices : (d : Db) (l : List PushDevice) → P d → P (record d { devices = l })

module _ {P : Db → Type 0} (i : IgnoresNotices P) (out : Outside) where
  Keeps-insert_notifications : (xs : List NotificationInput) → Keeps P (insert_notifications out xs)
  unfolding insert_notifications new_id
  Keeps-insert_notifications [] = search (keeps_rules)
  Keeps-insert_notifications (x ∷ xs) = Keeps-bind _ _ (Keeps-ask _) λ id.
      Keeps-bind _ _ (Keeps-create_by notifications _ _ (λ d new. i.notifications d _))
        λ r. Keeps-insert_notifications xs

  Keeps-send_chunks :
      (ds : List PushDevice) (cs : List (List PushMessage)) → Keeps P (send_chunks out ds cs)
  unfolding send_chunks send_chunk
  Keeps-send_chunks ds [] = search (keeps_rules)
  Keeps-send_chunks ds (c ∷ cs) =
      Keeps-bind _ _ (Keeps-try_catch _ _ (search (keeps_rules)) (λ e. Keeps-pure _))
        λ ids. Keeps-bind _ _ (Keeps-send_chunks ds cs) λ rest. Keeps-pure _

  Keeps-deactivate : (ids : List String) → Keeps P (deactivate out ids)
  unfolding deactivate
  Keeps-deactivate [] = search (keeps_rules)
  Keeps-deactivate (id ∷ ids) = Keeps-update_many_by devices _ _ (λ d. i.devices d _)

  Keeps-send_messages :
      (ds : List PushDevice) (ms : List PushMessage) → Keeps P (send_messages out ds ms)
  unfolding send_messages
  Keeps-send_messages ds [] = search (keeps_rules)
  Keeps-send_messages ds (m ∷ ms) = search (keeps_rules, Keeps-send_chunks, Keeps-deactivate)

  Keeps-create_normalized : (xs : List NotificationInput) → Keeps P (create_normalized out xs)
  unfolding create_normalized persist_and_push dispatch_push_notifications
  Keeps-create_normalized [] = search (keeps_rules)
  Keeps-create_normalized (x ∷ xs) =
      search (keeps_rules, Keeps-insert_notifications, Keeps-send_messages)

  pub Keeps-create_many_notifications :
      (xs : List NotificationInput) → Keeps P (create_many_notifications out xs)
  unfolding create_many_notifications
  Keeps-create_many_notifications xs = Keeps-create_normalized _

  pub Keeps-notify_profile :
      (id : String) (a : NotificationAudience) (c : NotificationContent)
      → Keeps P (notify_profile out id a c)
  unfolding notify_profile create_notification
  Keeps-notify_profile id a c = Keeps-create_many_notifications _

  pub Keeps-notify_customer :
      (id : String) (c : NotificationContent) → Keeps P (notify_customer out id c)
  unfolding notify_customer
  Keeps-notify_customer id c = Keeps-notify_profile id _ c

  pub Keeps-notify_admins : (c : NotificationContent) → Keeps P (notify_admins out c)
  unfolding notify_admins
  Keeps-notify_admins c = search (keeps_rules, Keeps-create_many_notifications)

  pub Keeps-notify_provider_team :
      (id : String) (c : NotificationContent) → Keeps P (notify_provider_team out id c)
  unfolding notify_provider_team
  Keeps-notify_provider_team id c = Keeps-bind _ _ (Keeps-find _ _) λ found.
      Keeps-option found _ _ (Keeps-pure tt)
        λ p. search (keeps_rules, Keeps-create_many_notifications)
