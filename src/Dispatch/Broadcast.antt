-- ===== src/Dispatch/Broadcast.antt =====
-- `dispatchShipmentIfEligible` of src/dispatch/dispatch.service.ts: a shipment is
-- offered to the providers that may take it.
use Prim.Native.String
use oyana_backend.Base.{
  ℕ, suc, String, Bool, true, false, not, ◌&&◌, ◌||◌, Option, none, some, List, [], ◌∷◌,
  if◌then◌else◌, ⊤, ◌==◌, leb, or_else,
}
use oyana_backend.Base.Int.{ℤ, pos}
use oyana_backend.Base.Text.{show_ℕ}
use oyana_backend.Base.Table.{exists, find_first}
use oyana_backend.Value.{null, object, field, end, text, num}
use oyana_backend.Db.{Db, shipments, events, batches, offers}
use oyana_backend.Profile.Schema.{UserAddress}
use oyana_backend.Shipments.Schema.{
  Shipment, ShipmentEvent, ShipmentStatus, ShipmentMode, ShipmentScheduleType, ShipmentEventType,
  ShipmentActorRole, eq_mode, eq_status, eq_event_type,
}
use oyana_backend.Notifications.Schema.{NotificationCategory}
use oyana_backend.Notifications.{
  NotificationContent, notify_customer, notify_provider_team, notify_admins,
}
use oyana_backend.Notifications.Push.{is_among, distinct}
use oyana_backend.Act.{
  Act, pure, transaction, find, find_all, create, update, publish, view, ◌>>=◌, ◌>>◌,
}
use oyana_backend.Outside.{Outside, new_id, time_now}
use oyana_backend.Dispatch.Schema.{
  DispatchBatch, DispatchOffer, DispatchBatchStatus, DispatchOfferStatus, is_batch_assigned,
  is_batch_open,
}
use oyana_backend.Dispatch.Eligible.{find_eligible_providers, address_of}

-- the offers still in the state that they were sent in
abbrev is_sent : DispatchOfferStatus → Bool
is_sent DispatchOfferStatus.sent = true
is_sent _ = false

unfoldable pub is_shipment_due_for_dispatch : ShipmentScheduleType → Option ℕ → ℕ → Bool
is_shipment_due_for_dispatch ShipmentScheduleType.instant scheduled_at time = true
is_shipment_due_for_dispatch ShipmentScheduleType.scheduled none time = true
is_shipment_due_for_dispatch ShipmentScheduleType.scheduled (some at) time = leb at time

-- `dispatchBatch?.status === ASSIGNED`
abbrev pub has_assigned_batch : Option DispatchBatch → Bool
has_assigned_batch none = false
has_assigned_batch (some b) = is_batch_assigned b.status

-- the guards of the job
abbrev pub may_dispatch : ℕ → Shipment → Db → Bool
may_dispatch time s d =
    eq_mode s.mode ShipmentMode.dispatch
    && eq_status s.status ShipmentStatus.created
    && is_shipment_due_for_dispatch s.schedule_type s.scheduled_at time
    && not (exists (λ a. a.shipment_id == s.id) d.assignments)
    && not (has_assigned_batch (find_first (λ b. b.shipment_id == s.id) d.batches))

abbrev pub offer_row : String → String → String → String → String → ℕ → DispatchOffer
offer_row id batch_id shipment_id provider_id trigger time = record {
  id = id;
  batch_id = batch_id;
  shipment_id = shipment_id;
  provider_id = provider_id;
  status = DispatchOfferStatus.sent;
  sent_at = some time;
  responded_at = none;
  expires_at = none;
  provider_eta_minutes = none;
  counter_amount_minor = none;
  counter_currency = none;
  counter_message = none;
  countered_at = none;
  metadata = object (field "trigger" (text trigger) end);
}

abbrev pub broadcast_event : String → String → String → ℕ → String → ShipmentEvent
broadcast_event id shipment_id trigger count batch_id = record {
  id = id;
  shipment_id = shipment_id;
  event_type = ShipmentEventType.broadcasted;
  actor_profile_id = none;
  actor_role = some ShipmentActorRole.system;
  metadata = object (
      field "trigger" (text trigger) (
        field "eligibleProviderCount" (num (pos count))
          (field "dispatchBatchId" (text batch_id) end)));
}

abbrev count : List String → ℕ
count [] = 0
count (x ∷ xs) = suc (count xs)

abbrev content : String → String → String → NotificationContent
content title body shipment_id = record {
  category = NotificationCategory.dispatch;
  title = title;
  body = body;
  entity_type = some "shipment";
  entity_id = some shipment_id;
  metadata = null;
}

abbrev lat_of : Option UserAddress → Option ℤ
lat_of none = none
lat_of (some a) = a.lat

abbrev lng_of : Option UserAddress → Option ℤ
lng_of none = none
lng_of (some a) = a.lng

unfoldable pub publish_sent : List DispatchOffer → Act ⊤
publish_sent [] = pure tt
publish_sent (o ∷ os) = do
  publish (String.◌++◌ "DISPATCH_OFFER_SENT." o.provider_id) o.id
  publish_sent os

module _ (out : Outside) where
  abbrev eligible_for : ℕ → Shipment → Db → List String
  eligible_for time s d =
      let pickup = address_of d s.pickup_address_id in
      find_eligible_providers out time s.vehicle_category (lat_of pickup) (lng_of pickup) d

  -- one row of `createMany` with `skipDuplicates`: a provider that has an offer of the batch keeps it
  unfoldable pub send_offer : DispatchBatch → String → String → ℕ → String → Act ⊤
  send_offer batch shipment_id trigger time provider_id = do
    id ← new_id out
    existing ←
        find offers (λ o. o.id == id || o.batch_id == batch.id && o.provider_id == provider_id)
    elim existing [
      | some o ↦ pure tt
      | none ↦ (do
        create offers (λ o. o.id == id || o.batch_id == batch.id && o.provider_id == provider_id)
            (offer_row id batch.id shipment_id provider_id trigger time)
        pure tt)
    ]

  unfoldable pub send_offers : DispatchBatch → String → String → ℕ → List String → Act ⊤
  send_offers batch shipment_id trigger time [] = pure tt
  send_offers batch shipment_id trigger time (p ∷ ps) = do
    send_offer batch shipment_id trigger time p
    send_offers batch shipment_id trigger time ps

  -- a closed batch is opened again
  unfoldable pub reopen : DispatchBatch → ℕ → Act DispatchBatch
  reopen batch time =
      if is_batch_open batch.status || is_batch_assigned batch.status
      then pure batch
      else update batches (λ b. b.id == batch.id)
          (λ b. record b {
            status = DispatchBatchStatus.open';
            opened_at = or_else batch.opened_at (some time);
            closed_at = none;
          })

  unfoldable pub get_or_open_dispatch_batch : String → ℕ → Act DispatchBatch
  get_or_open_dispatch_batch shipment_id time = do
    existing ← find batches (λ b. b.shipment_id == shipment_id)
    elim existing [
      | some batch ↦ reopen batch time
      | none ↦ (do
        id ← new_id out
        create batches (λ b. b.id == id || b.shipment_id == shipment_id)
            (record {
              id = id;
              shipment_id = shipment_id;
              status = DispatchBatchStatus.open';
              opened_at = some time;
              closed_at = none;
              expires_at = none;
            }))
    ]

  unfoldable pub record_broadcast : String → String → ℕ → String → Act ⊤
  record_broadcast shipment_id trigger number batch_id = do
    existing ← find events (λ e.
        e.shipment_id == shipment_id && eq_event_type e.event_type ShipmentEventType.broadcasted)
    elim existing [
      | some e ↦ pure tt
      | none ↦ (do
        id ← new_id out
        create events (λ e. e.id == id) (broadcast_event id shipment_id trigger number batch_id)
        pure tt)
    ]

  -- The writes of a broadcast: `none` where nothing is sent, or whom it was sent to.
  unfoldable pub broadcast : Shipment → String → ℕ → List String → Act (Option (List String))
  broadcast shipment trigger time eligible = do
    batch ← get_or_open_dispatch_batch shipment.id time
    if is_batch_assigned batch.status then pure none else do
      send_offers batch shipment.id trigger time eligible
      update shipments (λ s. s.id == shipment.id)
          (λ s. record s { status = ShipmentStatus.broadcasting })
      record_broadcast shipment.id trigger (count eligible) batch.id
      pure (some eligible)

  abbrev pub broadcast_to : Shipment → String → ℕ → List String → Act (Option (List String))
  broadcast_to shipment trigger time [] = pure none
  broadcast_to shipment trigger time (p ∷ ps) = broadcast shipment trigger time (p ∷ ps)

  unfoldable pub dispatch_found : String → ℕ → Option Shipment → Act (Option (List String))
  dispatch_found trigger time none = pure none
  dispatch_found trigger time (some shipment) = do
    d ← view (λ d. d)
    if may_dispatch time shipment d
        then (do
          -- `findEligibleProviders` reads the clock itself
          later ← time_now out
          broadcast_to shipment trigger time (eligible_for later shipment d))
        else pure none

  -- the body of the transaction, with the shipment that it is about
  unfoldable pub dispatch_in_transaction :
      String → String → Act (Option Shipment × Option (List String))
  dispatch_in_transaction shipment_id trigger = do
    time ← time_now out
    shipment ← find shipments (λ s. s.id == shipment_id)
    sent ← dispatch_found trigger time shipment
    pure (shipment, sent)

  unfoldable pub notify_teams : String → String → List String → Act ⊤
  notify_teams tracking_code shipment_id [] = pure tt
  notify_teams tracking_code shipment_id (p ∷ ps) = do
    notify_provider_team out p (
        content "New dispatch offer available"
          (String.◌++◌ "Shipment " (String.◌++◌ tracking_code " is ready for response."))
          shipment_id)
    notify_teams tracking_code shipment_id ps

  unfoldable pub announce : Shipment → List String → Act ⊤
  announce shipment eligible = do
    notify_customer out shipment.customer_profile_id (
        content (String.◌++◌ "Shipment " (String.◌++◌ shipment.tracking_code " is broadcasting"))
          "We are matching your shipment with available providers." shipment.id)
    notify_admins out (
        content (String.◌++◌ "Dispatch started for " shipment.tracking_code)
          (String.◌++◌ "Offers sent to " (String.◌++◌ (show_ℕ (count eligible)) " provider(s)."))
          shipment.id)
    notify_teams shipment.tracking_code shipment.id (distinct eligible)
    sent ←
        find_all offers
          (λ o. o.shipment_id == shipment.id && is_among eligible o.provider_id && is_sent o.status)
    publish_sent sent

  unfoldable pub dispatch_shipment_if_eligible : String → String → Act Bool
  dispatch_shipment_if_eligible shipment_id trigger = do
    answer ← transaction (dispatch_in_transaction shipment_id trigger)
    elim answer.0 [
      | none ↦ pure false
      | some shipment ↦ elim answer.1 [
        | none ↦ pure false
        | some eligible ↦ (do announce shipment eligible; pure true)
      ]
    ]
