-- ===== src/Shipments/Carrier.antt =====
-- The progress of a marketplace shipment in shipments.service.ts, as its provider reports it.
use Prim.Native.String
use oyana_backend.Base.{
  String, Bool, true, false, not, Option, none, some, List, [], ◌∷◌, if◌then◌else◌, ⊤, ◌==◌, get_or,
}
use oyana_backend.Value.{object, field, end, text}
use oyana_backend.Db.{shipments, assignments}
use oyana_backend.Profile.Enums.{UserType}
use oyana_backend.Provider.Access.{
  require_user_role, require_operational_provider_id, resolve_provider_id_for_profile, is_admin,
  non_empty,
}
use oyana_backend.Dispatch.Schema.{ShipmentAssignment, ShipmentAssignmentStatus}
use oyana_backend.Dispatch.{require_provider_owned_active_assignment}
use oyana_backend.Dispatch.Progress.{before_route, before_pickup, before_dropoff}
use oyana_backend.Shipments.Schema.{
  Shipment, ShipmentStatus, ShipmentMode, ShipmentActorRole, eq_mode, eq_status, is_one_of,
  status_text,
}
use oyana_backend.Shipments.{
  find_shipment, actor_role_of, record_status, notify_shipment_status_change,
}
use oyana_backend.Act.{
  Act, pure, bad_request, forbidden, or_throw, throw_if, transaction, find, update, ◌>>=◌, ◌>>◌,
}
use oyana_backend.Outside.{Outside, time_now}

pub record ProgressOptions : Type 0 where
  pub allowed_statuses : List ShipmentStatus
  pub next_status : ShipmentStatus
  pub complete_assignment : Bool

unfoldable pub acting_provider : String → UserType → Act String
acting_provider viewer role =
    if is_admin role
    then (do
      resolved ← resolve_provider_id_for_profile viewer
      or_throw (non_empty resolved) (forbidden "No provider account found for this user"))
    else require_operational_provider_id viewer

-- the status of the shipment as it is read with the assignment
abbrev pub status_differs : ShipmentStatus → Option Shipment → Bool
status_differs next none = true
status_differs next (some s) = not (eq_status next s.status)

module _ (out : Outside) where
  unfoldable pub complete_assignment : Bool → ShipmentAssignment → Act ⊤
  complete_assignment false assignment = pure tt
  complete_assignment true assignment = do
    time ← time_now out
    update assignments (λ a. a.id == assignment.id)
        (λ a. record a {
          status = ShipmentAssignmentStatus.completed;
          completed_at = some (get_or assignment.completed_at time);
        })
    pure tt

  -- the body of the transaction: the shipment before and after
  unfoldable pub progress_in_transaction :
      String
      → UserType
      → String
      → ProgressOptions
      → ShipmentAssignment
      → Bool
      → Act (Shipment × Shipment)
  progress_in_transaction viewer role shipment_id options assignment changed = do
    current ← find_shipment shipment_id
    throw_if (not (eq_mode current.mode ShipmentMode.marketplace))
        (bad_request "Shipment is not a marketplace request")
    throw_if (not (is_one_of options.allowed_statuses current.status)) (
        bad_request (
          String.◌++◌ "Cannot update marketplace shipment from status "
            (status_text current.status)))
    complete_assignment options.complete_assignment assignment
    updated ←
        update shipments (λ s. s.id == shipment_id) (λ s. record s { status = options.next_status })
    (if changed
        then record_status out shipment_id current.status options.next_status viewer
            (actor_role_of role ShipmentActorRole.provider)
        else pure tt)
    pure (current, updated)

  unfoldable pub update_provider_marketplace_shipment_status :
      String → String → ProgressOptions → Act Shipment
  update_provider_marketplace_shipment_status viewer shipment_id options = do
    role ← require_user_role viewer (UserType.business ∷ UserType.admin ∷ [])
    provider_id ← acting_provider viewer role
    assignment ← require_provider_owned_active_assignment provider_id shipment_id
    seen ← find shipments (λ s. s.id == shipment_id)
    let changed = status_differs options.next_status seen
    result ←
        transaction (progress_in_transaction viewer role shipment_id options assignment changed)
    (if changed
        then notify_shipment_status_change out shipment_id (result.0).tracking_code
            options.next_status viewer (result.0).customer_profile_id
            (object (field "previousStatus" (text (status_text (result.0).status)) end))
        else pure tt)
    pure result.1

  unfoldable pub mark_marketplace_en_route_pickup : String → String → Act Shipment
  mark_marketplace_en_route_pickup viewer shipment_id =
      update_provider_marketplace_shipment_status viewer shipment_id (record {
        allowed_statuses = before_route;
        next_status = ShipmentStatus.en_route_pickup;
        complete_assignment = false;
      })

  unfoldable pub confirm_marketplace_pickup : String → String → Act Shipment
  confirm_marketplace_pickup viewer shipment_id =
      update_provider_marketplace_shipment_status viewer shipment_id (record {
        allowed_statuses = before_pickup;
        next_status = ShipmentStatus.picked_up;
        complete_assignment = false;
      })

  unfoldable pub confirm_marketplace_dropoff : String → String → Act Shipment
  confirm_marketplace_dropoff viewer shipment_id =
      update_provider_marketplace_shipment_status viewer shipment_id (record {
        allowed_statuses = before_dropoff;
        next_status = ShipmentStatus.completed;
        complete_assignment = true;
      })
