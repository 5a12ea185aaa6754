-- ===== src/Dispatch/Progress.antt =====
-- The progress of a dispatch shipment in dispatch.service.ts: `markEnRoutePickup`, `confirmPickup`
-- and `confirmDropoff`.
use Prim.Native.String
use oyana_backend.Base.{ℕ, String, not, some, List, [], ◌∷◌, ◌==◌, get_or}
use oyana_backend.Db.{shipments, assignments}
use oyana_backend.Shipments.Schema.{Shipment, ShipmentStatus, is_one_of, status_text}
use oyana_backend.Provider.Access.{require_operational_provider_id}
use oyana_backend.Act.{Act, pure, bad_request, throw_if, transaction, update, ◌>>=◌, ◌>>◌}
use oyana_backend.Outside.{Outside, time_now}
use oyana_backend.Dispatch.Schema.{ShipmentAssignment, ShipmentAssignmentStatus}
use oyana_backend.Dispatch.Notices.{notify_shipment_progress}
use oyana_backend.Dispatch.{find_shipment, require_provider_owned_active_assignment}

abbrev pub before_route : List ShipmentStatus
before_route = ShipmentStatus.assigned ∷ ShipmentStatus.en_route_pickup ∷ []

abbrev pub before_pickup : List ShipmentStatus
before_pickup =
    ShipmentStatus.assigned ∷ ShipmentStatus.en_route_pickup ∷ ShipmentStatus.picked_up ∷ []

abbrev pub before_dropoff : List ShipmentStatus
before_dropoff =
    ShipmentStatus.picked_up ∷ ShipmentStatus.en_route_dropoff ∷ ShipmentStatus.delivered
    ∷ ShipmentStatus.completed ∷ []

-- from one of the allowed statuses to the next one
unfoldable pub advance : List ShipmentStatus → ShipmentStatus → String → String → Act Shipment
advance allowed next refusal shipment_id = do
  shipment ← find_shipment shipment_id
  throw_if (not (is_one_of allowed shipment.status))
      (bad_request (String.◌++◌ refusal (status_text shipment.status)))
  update shipments (λ s. s.id == shipment_id) (λ s. record s { status = next })

abbrev told : String → Shipment → String → String
told prefix s suffix = String.◌++◌ prefix (String.◌++◌ s.tracking_code suffix)

module _ (out : Outside) where
  unfoldable pub mark_en_route_pickup : String → String → Act Shipment
  mark_en_route_pickup profile_id shipment_id = do
    provider_id ← require_operational_provider_id profile_id
    require_provider_owned_active_assignment provider_id shipment_id
    shipment ←
        advance before_route ShipmentStatus.en_route_pickup
          "Cannot mark pickup route from shipment status " shipment_id
    notify_shipment_progress out shipment provider_id "Driver is en route to pickup"
        (told "Shipment " shipment " is now en route for pickup.")
    pure shipment

  unfoldable pub confirm_pickup : String → String → Act Shipment
  confirm_pickup profile_id shipment_id = do
    provider_id ← require_operational_provider_id profile_id
    require_provider_owned_active_assignment provider_id shipment_id
    shipment ←
        advance before_pickup ShipmentStatus.picked_up "Cannot confirm pickup from shipment status "
          shipment_id
    notify_shipment_progress out shipment provider_id "Shipment picked up"
        (told "Shipment " shipment " has been picked up.")
    pure shipment

  -- the body of the transaction: the assignment ends with the shipment
  unfoldable pub complete_in_transaction : ShipmentAssignment → ℕ → String → Act Shipment
  complete_in_transaction assignment time shipment_id = do
    shipment ← find_shipment shipment_id
    throw_if (not (is_one_of before_dropoff shipment.status)) (
        bad_request (
          String.◌++◌ "Cannot confirm dropoff from shipment status " (status_text shipment.status)))
    update assignments (λ a. a.id == assignment.id)
        (λ a. record a {
          status = ShipmentAssignmentStatus.completed;
          completed_at = some (get_or assignment.completed_at time);
        })
    update shipments (λ s. s.id == shipment_id)
        (λ s. record s { status = ShipmentStatus.completed })

  unfoldable pub confirm_dropoff : String → String → Act Shipment
  confirm_dropoff profile_id shipment_id = do
    provider_id ← require_operational_provider_id profile_id
    assignment ← require_provider_owned_active_assignment provider_id shipment_id
    time ← time_now out
    shipment ← transaction (complete_in_transaction assignment time shipment_id)
    notify_shipment_progress out shipment provider_id "Shipment completed"
        (told "Shipment " shipment " has been completed.")
    pure shipment
