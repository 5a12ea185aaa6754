-- ===== src/Notifications.antt =====
-- src/notifications/notifications.service.ts: in-app notifications and pushes through Expo. The
-- warnings that the service logs are left out.
pub mod Schema
pub mod Push
pub mod Quiet
pub mod Returns
mod Tests
use oyana_backend.Base.{
  String, Bool, true, false, ◌||◌, ◌&&◌, Option, none, some, List, [], ◌∷◌, map, if◌then◌else◌, ⊤,
  ◌==◌,
}
use oyana_backend.Base.Text.{trim}
use oyana_backend.Base.Table.{find_many}
use oyana_backend.Value.{Value, null}
use oyana_backend.Db.{profiles, providers, members, notifications}
use oyana_backend.Profile.Schema.{Profile}
use oyana_backend.Profile.Roles.{is_role_admin}
use oyana_backend.Provider.Schema.{ProviderMember}
use oyana_backend.Act.{Act, pure, try_catch, transaction, find, find_all, create, ◌>>=◌, ◌>>◌}
use oyana_backend.Outside.{Outside, new_id}
use Schema.{Notification, NotificationAudience, NotificationCategory}
use Push.{NotificationInput, dispatch_push_notifications, distinct}

pub record NotificationContent : Type 0 where
  pub category : NotificationCategory
  pub title : String
  pub body : String
  pub entity_type : Option String
  pub entity_id : Option String
  pub metadata : Value

-- `text?.trim() || undefined`
abbrev trim_optional : Option String → Option String
trim_optional none = none
trim_optional (some s) = if trim s == "" then none else some (trim s)

unfoldable pub normalize_input : NotificationInput → Option NotificationInput
normalize_input input =
    let title = trim input.title in
    let body = trim input.body in
    let recipient_profile_id = trim input.recipient_profile_id in
    if recipient_profile_id == "" || title == "" || body == ""
    then none
    else some (record input {
      recipient_profile_id = recipient_profile_id;
      title = title;
      body = body;
      entity_type = trim_optional input.entity_type;
      entity_id = trim_optional input.entity_id;
    })

abbrev cons_some : Option NotificationInput → List NotificationInput → List NotificationInput
cons_some none xs = xs
cons_some (some x) xs = x ∷ xs

-- the inputs that `normalizeInput` keeps
unfoldable pub normalize_all : List NotificationInput → List NotificationInput
normalize_all [] = []
normalize_all (x ∷ xs) = cons_some (normalize_input x) (normalize_all xs)

abbrev input_of : NotificationAudience → NotificationContent → String → NotificationInput
input_of audience content recipient_profile_id = record {
  recipient_profile_id = recipient_profile_id;
  audience = audience;
  category = content.category;
  title = content.title;
  body = content.body;
  entity_type = content.entity_type;
  entity_id = content.entity_id;
  metadata = content.metadata;
}

abbrev pub notification_row : String → NotificationInput → Notification
notification_row id item = record {
  id = id;
  recipient_profile_id = item.recipient_profile_id;
  audience = item.audience;
  category = item.category;
  title = item.title;
  body = item.body;
  entity_type = item.entity_type;
  entity_id = item.entity_id;
  metadata = item.metadata;
  is_read = false;
}

-- the provider's contact, if there is one, and its members
abbrev team_of : Option String → List ProviderMember → List String
team_of none ms = map (λ m. m.profile_id) ms
team_of (some contact) ms = contact ∷ map (λ m. m.profile_id) ms

module _ (out : Outside) where
  -- the rows of `createMany`
  unfoldable pub insert_notifications : List NotificationInput → Act ⊤
  insert_notifications [] = pure tt
  insert_notifications (item ∷ rest) = do
    id ← new_id out
    create notifications (λ n. n.id == id) (notification_row id item)
    insert_notifications rest

  -- `createMany` inserts all rows or none
  unfoldable pub persist_and_push : List NotificationInput → Act ⊤
  persist_and_push normalized = do
    transaction (insert_notifications normalized)
    dispatch_push_notifications out normalized

  unfoldable pub create_normalized : List NotificationInput → Act ⊤
  create_normalized [] = pure tt
  create_normalized (x ∷ xs) = try_catch (persist_and_push (x ∷ xs)) (λ e. pure tt)

  unfoldable pub create_many_notifications : List NotificationInput → Act ⊤
  create_many_notifications inputs = create_normalized (normalize_all inputs)

  unfoldable pub create_notification : NotificationInput → Act ⊤
  create_notification input = create_many_notifications (input ∷ [])

  unfoldable pub notify_profile : String → NotificationAudience → NotificationContent → Act ⊤
  notify_profile recipient_profile_id audience content =
      create_notification (input_of audience content recipient_profile_id)

  unfoldable pub notify_admins : NotificationContent → Act ⊤
  notify_admins content = do
    admins ← find_all profiles (λ p. is_role_admin p.role)
    create_many_notifications (map (λ p. input_of NotificationAudience.admin content p.id) admins)

  unfoldable pub notify_customer : String → NotificationContent → Act ⊤
  notify_customer customer_profile_id content =
      notify_profile customer_profile_id NotificationAudience.customer content

  unfoldable pub notify_provider_team : String → NotificationContent → Act ⊤
  notify_provider_team provider_id content = do
    found ← find providers (λ p. p.id == provider_id)
    elim found [
      | none ↦ pure tt
      | some provider ↦ (do
        team ← find_all members (λ m. m.provider_id == provider_id && m.status == "active")
        create_many_notifications (
            map (input_of NotificationAudience.provider content)
              (distinct (team_of provider.profile_id team))))
    ]
