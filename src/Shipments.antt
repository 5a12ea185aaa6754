-- ===== src/Shipments.antt =====
-- src/shipments/shipments.service.ts: what its methods share. Events and milestones of a status, and
-- who is told of a change.
pub mod Schema
pub mod Pricing
pub mod Create
pub mod Change
pub mod Carrier
pub mod Bounds
pub mod Over
mod Tests
use Prim.Native.String
use oyana_backend.Base.{
  ℕ, String, Bool, true, false, not, ◌&&◌, ◌||◌, Option, none, some, List, [], ◌∷◌, ◌++◌,
  if◌then◌else◌, ⊤, ◌==◌,
}
use oyana_backend.Value.{Value, Fields, object, field, end, text}
use oyana_backend.Db.{shipments, events, milestones, assignments}
use oyana_backend.Profile.Enums.{UserType}
use oyana_backend.Dispatch.Schema.{ShipmentAssignment}
use oyana_backend.Notifications.Schema.{NotificationAudience, NotificationCategory}
use oyana_backend.Notifications.{
  NotificationContent, notify_profile, notify_provider_team, notify_admins,
}
use oyana_backend.Provider.Access.{require_user_role, is_admin, non_empty}
use oyana_backend.MarketPlace.{shipment_missing}
use oyana_backend.Act.{Act, pure, not_found, or_throw, find, create, update, ◌>>=◌, ◌>>◌}
use oyana_backend.Outside.{Outside, new_id, time_now}
use Schema.{
  Shipment, ShipmentEvent, ShipmentMilestone, ShipmentStatus, ShipmentEventType, ShipmentActorRole,
  ShipmentMilestoneType, ShipmentMilestoneStatus, eq_milestone_type, status_text,
}

-- `STATUS_TO_EVENT_TYPE`
unfoldable pub status_to_event_type : ShipmentStatus → Option ShipmentEventType
status_to_event_type ShipmentStatus.created = some ShipmentEventType.created
status_to_event_type ShipmentStatus.broadcasting = some ShipmentEventType.broadcasted
status_to_event_type ShipmentStatus.assigned = some ShipmentEventType.assigned
status_to_event_type ShipmentStatus.picked_up = some ShipmentEventType.picked_up
status_to_event_type ShipmentStatus.delivered = some ShipmentEventType.delivered
status_to_event_type ShipmentStatus.completed = some ShipmentEventType.completed
status_to_event_type ShipmentStatus.cancelled = some ShipmentEventType.cancelled
status_to_event_type _ = none

-- `STATUS_TO_MILESTONE`
unfoldable pub status_to_milestone : ShipmentStatus → Option ShipmentMilestoneType
status_to_milestone ShipmentStatus.assigned = some ShipmentMilestoneType.accepted
status_to_milestone ShipmentStatus.en_route_pickup = some ShipmentMilestoneType.arrived_pickup
status_to_milestone ShipmentStatus.picked_up = some ShipmentMilestoneType.picked_up
status_to_milestone ShipmentStatus.en_route_dropoff = some ShipmentMilestoneType.arrived_dropoff
status_to_milestone ShipmentStatus.delivered = some ShipmentMilestoneType.delivered
status_to_milestone ShipmentStatus.completed = some ShipmentMilestoneType.completed
status_to_milestone _ = none

-- a completed shipment's milestone is verified at once
abbrev pub milestone_status_of : ShipmentStatus → ShipmentMilestoneStatus
milestone_status_of ShipmentStatus.completed = ShipmentMilestoneStatus.verified
milestone_status_of _ = ShipmentMilestoneStatus.reached

abbrev pub actor_role_of : UserType → ShipmentActorRole → ShipmentActorRole
actor_role_of role other = if is_admin role then ShipmentActorRole.admin else other

abbrev pub event_row :
    String → String → ShipmentEventType → String → ShipmentActorRole → Value → ShipmentEvent
event_row id shipment_id event_type actor actor_role metadata = record {
  id = id;
  shipment_id = shipment_id;
  event_type = event_type;
  actor_profile_id = some actor;
  actor_role = some actor_role;
  metadata = metadata;
}

abbrev pub status_change : ShipmentStatus → ShipmentStatus → Value
status_change previous next = object (
    field "previousStatus" (text (status_text previous))
      (field "nextStatus" (text (status_text next)) end))

unfoldable pub find_shipment : String → Act Shipment
find_shipment id = do
  found ← find shipments (λ s. s.id == id)
  or_throw found (not_found (shipment_missing id))

-- the fields of an object, as `...details` spreads them
abbrev spread : Value → Fields
spread (object fs) = fs
spread _ = end

abbrev content : String → ShipmentStatus → String → Value → NotificationContent
content tracking_code status shipment_id details = record {
  category = NotificationCategory.shipment;
  title = String.◌++◌ "Shipment " (String.◌++◌ tracking_code " updated");
  body = String.◌++◌ "Status changed to " (String.◌++◌ (status_text status) ".");
  entity_type = some "shipment";
  entity_id = some shipment_id;
  metadata = details;
}

unfoldable pub resolve_notification_audience : String → Act NotificationAudience
resolve_notification_audience profile_id = do
  role ←
      require_user_role profile_id (UserType.admin ∷ UserType.business ∷ UserType.individual ∷ [])
  pure (elim role [
    | UserType.admin ↦ NotificationAudience.admin
    | UserType.business ↦ NotificationAudience.provider
    | UserType.individual ↦ NotificationAudience.customer
  ])

module _ (out : Outside) where
  unfoldable pub add_event : String → ShipmentEventType → String → ShipmentActorRole → Value → Act ⊤
  add_event shipment_id event_type actor actor_role metadata = do
    id ← new_id out
    create events (λ e. e.id == id) (event_row id shipment_id event_type actor actor_role metadata)
    pure tt

  unfoldable pub mark_shipment_milestone_reached :
      String → ShipmentMilestoneType → ShipmentMilestoneStatus → Act ⊤
  mark_shipment_milestone_reached shipment_id type status = do
    existing ← find milestones (λ m. m.shipment_id == shipment_id && eq_milestone_type m.type type)
    time ← time_now out
    elim existing [
      | none ↦ (do
        id ← new_id out
        create milestones
            (λ m. m.id == id || m.shipment_id == shipment_id && eq_milestone_type m.type type)
            (record {
              id = id;
              shipment_id = shipment_id;
              type = type;
              status = status;
              occurred_at = some time;
            })
        pure tt)
      | some milestone ↦ (do
        update milestones (λ m. m.id == milestone.id)
            (λ m. record m { status = status; occurred_at = some time })
        pure tt)
    ]

  -- what a change of status leaves behind
  unfoldable pub record_status :
      String → ShipmentStatus → ShipmentStatus → String → ShipmentActorRole → Act ⊤
  record_status shipment_id previous next actor actor_role = do
    elim (status_to_event_type next) [
      | none ↦ pure tt
      | some event_type ↦
          add_event shipment_id event_type actor actor_role (status_change previous next)
    ]
    elim (status_to_milestone next) [
      | none ↦ pure tt
      | some type ↦ mark_shipment_milestone_reached shipment_id type (milestone_status_of next)
    ]

  abbrev tell_customer : Bool → String → NotificationContent → Act ⊤
  tell_customer true customer content = pure tt
  tell_customer false customer content = do
    audience ← resolve_notification_audience customer
    notify_profile out customer audience content

  abbrev tell_provider : Option ShipmentAssignment → NotificationContent → Act ⊤
  tell_provider none content = pure tt
  tell_provider (some a) content = elim (non_empty (some a.provider_id)) [
    | none ↦ pure tt
    | some provider_id ↦ notify_provider_team out provider_id content
  ]

  unfoldable pub notify_shipment_status_change :
      String → String → ShipmentStatus → String → String → Value → Act ⊤
  notify_shipment_status_change shipment_id tracking_code status actor customer details = do
    assignment ← find assignments (λ a. a.shipment_id == shipment_id)
    tell_customer (customer == actor) customer (content tracking_code status shipment_id details)
    tell_provider assignment (content tracking_code status shipment_id details)
    notify_admins out (
        content tracking_code status shipment_id
          (object (field "actorProfileId" (text actor) (spread details))))
