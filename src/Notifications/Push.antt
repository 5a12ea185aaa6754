-- ===== src/Notifications/Push.antt =====
-- `dispatchPushNotifications` of src/notifications/notifications.service.ts.
use oyana_backend.Base.{
  String, Bool, true, false, not, ◌&&◌, Option, none, some, List, [], ◌∷◌, ◌++◌, map, if◌then◌else◌,
  ⊤, ◌==◌,
}
use oyana_backend.Base.Table.{find_many, find_first, exists}
use oyana_backend.Value.{Value, Fields, object, field, end, text}
use oyana_backend.Db.{devices, profiles}
use oyana_backend.Profile.Schema.{Profile}
use oyana_backend.Act.{Act, pure, try_catch, ask, find_all, update_many, ◌>>=◌}
use oyana_backend.Outside.{Outside}
use oyana_backend.Notifications.Schema.{
  NotificationAudience, NotificationCategory, PushDevice, PushMessage, Ticket, audience_text,
  notification_category_text,
}

pub record NotificationInput : Type 0 where
  pub recipient_profile_id : String
  pub audience : NotificationAudience
  pub category : NotificationCategory
  pub title : String
  pub body : String
  pub entity_type : Option String
  pub entity_id : Option String
  pub metadata : Value

abbrev pub is_among : List String → String → Bool
is_among xs s = exists (λ x. x == s) xs

-- `Array.from(new Set(…))`: each text at its first place
unfoldable pub distinct : List String → List String
distinct [] = []
distinct (x ∷ xs) = x ∷ find_many (λ y. not (y == x)) (distinct xs)

unfoldable pub resolve_channel_id : NotificationCategory → String
resolve_channel_id NotificationCategory.shipment = "shipment-updates"
resolve_channel_id NotificationCategory.dispatch = "dispatch-updates"
resolve_channel_id NotificationCategory.support = "support-updates"
resolve_channel_id NotificationCategory.dispute = "dispute-updates"
resolve_channel_id NotificationCategory.system = "general-updates"

abbrev text_fields : String → Option String → Fields → Fields
text_fields key none rest = rest
text_fields key (some s) rest = if s == "" then rest else field key (text s) rest

-- an object that is no array
abbrev metadata_fields : Value → Fields
metadata_fields (object fs) = field "metadata" (object fs) end
metadata_fields _ = end

unfoldable pub build_push_data : NotificationInput → Value
build_push_data input = object (
    field "audience" (text (audience_text input.audience)) (
      field "category" (text (notification_category_text input.category)) (
        text_fields "entityType" input.entity_type
          (text_fields "entityId" input.entity_id (metadata_fields input.metadata)))))

unfoldable pub push_message : NotificationInput → PushDevice → PushMessage
push_message input device = record {
  to = device.expo_push_token;
  title = input.title;
  body = input.body;
  channel_id = resolve_channel_id input.category;
  payload = build_push_data input;
}

-- one message for each input and each device of its recipient
unfoldable pub push_messages : List PushDevice → List NotificationInput → List PushMessage
push_messages ds [] = []
push_messages ds (input ∷ inputs) =
    map (push_message input) (find_many (λ d. d.profile_id == input.recipient_profile_id) ds)
    ++ push_messages ds inputs

-- `tokenToDeviceId.get(token)`
abbrev device_of : List PushDevice → String → List String
device_of ds token = elim (find_first (λ d. d.expo_push_token == token) ds) [
  | none ↦ []
  | some d ↦ d.id ∷ []
]

abbrev is_unregistered : Ticket → Bool
is_unregistered (Ticket.refused (some e)) = e == "DeviceNotRegistered"
is_unregistered _ = false

-- the devices that Expo does not know any more; a missing ticket says nothing
unfoldable pub invalid_device_ids : List PushDevice → List PushMessage → List Ticket → List String
invalid_device_ids ds [] ts = []
invalid_device_ids ds (m ∷ ms) [] = []
invalid_device_ids ds (m ∷ ms) (t ∷ ts) =
    (if is_unregistered t then device_of ds m.to else []) ++ invalid_device_ids ds ms ts

abbrev is_pushable : String → Profile → Bool
is_pushable id p = p.id == id && p.notifications_enabled && p.push_permission_granted

module _ (out : Outside) where
  unfoldable pub send_chunk : List PushDevice → List PushMessage → Act (List String)
  send_chunk ds chunk =
      try_catch
        (do
          tickets ← ask λ n. out.send_push_notifications n chunk
          pure (invalid_device_ids ds chunk tickets))
        (λ e. pure [])

  unfoldable pub send_chunks : List PushDevice → List (List PushMessage) → Act (List String)
  send_chunks ds [] = pure []
  send_chunks ds (chunk ∷ chunks) = do
    ids ← send_chunk ds chunk
    rest ← send_chunks ds chunks
    pure (ids ++ rest)

  unfoldable pub deactivate : List String → Act ⊤
  deactivate [] = pure tt
  deactivate (id ∷ ids) =
      update_many devices (λ d. is_among (id ∷ ids) d.id) (λ d. record d { is_active = false })

  unfoldable pub send_messages : List PushDevice → List PushMessage → Act ⊤
  send_messages ds [] = pure tt
  send_messages ds (m ∷ ms) = do
    invalid ← send_chunks ds (out.chunk_push_notifications (m ∷ ms))
    deactivate invalid

  unfoldable pub dispatch_push_notifications : List NotificationInput → Act ⊤
  dispatch_push_notifications inputs = do
    let recipients = distinct (map (λ i. i.recipient_profile_id) inputs)
    ps ← find_all profiles (λ p. true)
    ds ← find_all devices (λ d.
        is_among recipients d.profile_id && d.is_active && exists (is_pushable d.profile_id) ps)
    send_messages (find_many (λ d. out.is_expo_push_token d.expo_push_token) ds)
        (push_messages (find_many (λ d. out.is_expo_push_token d.expo_push_token) ds) inputs)
