-- ===== src/Shipments/Change.antt =====
-- `updateShipment` and `cancelShipment` of shipments.service.ts: what the owner of a shipment, or an
-- administrator, changes.
use Prim.Native.String
use oyana_backend.Base.{
  ℕ, String, Bool, false, not, ◌||◌, ◌&&◌, is_some, Option, none, some, List, [], ◌∷◌,
  if◌then◌else◌, ◌==◌, get_or, or_else,
}
use oyana_backend.Base.Int.{ℤ}
use oyana_backend.Base.Text.{trim}
use oyana_backend.Value.{object, field, end, text}
use oyana_backend.Db.{shipments}
use oyana_backend.Profile.Enums.{UserType}
use oyana_backend.Provider.Access.{require_user_role, is_admin}
use oyana_backend.Shipments.Schema.{
  Shipment, ShipmentStatus, ShipmentMode, VehicleCategory, ShipmentScheduleType, ShipmentEventType,
  ShipmentActorRole, eq_status, is_one_of, status_text,
}
use oyana_backend.Shipments.Pricing.{calculate_commission}
use oyana_backend.Shipments.{
  find_shipment, actor_role_of, add_event, record_status, notify_shipment_status_change,
}
use oyana_backend.Act.{
  Act, pure, bad_request, forbidden, prisma, throw_if, transaction, find, update, ◌>>=◌, ◌>>◌,
}
use oyana_backend.Outside.{Outside, time_now}

pub record UpdateShipmentDto : Type 0 where
  pub tracking_code : Option String
  pub customer_profile_id : Option String
  pub mode : Option ShipmentMode
  pub vehicle_category : Option VehicleCategory
  pub schedule_type : Option ShipmentScheduleType
  pub status : Option ShipmentStatus
  pub pickup_address_id : Option String
  pub dropoff_address_id : Option String
  pub scheduled_at : Option ℕ
  pub package_value_minor : Option ℤ
  pub package_description : Option String
  pub special_instructions : Option String
  pub requires_escrow : Option Bool
  pub pricing_currency : Option String
  pub quoted_price_minor : Option ℤ
  pub final_price_minor : Option ℤ
  pub commission_rate_bps : Option ℤ
  pub cancelled_at : Option ℕ
  pub cancelled_by_profile_id : Option String
  pub cancellation_reason : Option String

pub record CancelShipmentDto : Type 0 where
  pub shipment_id : String
  pub cancellation_reason : String

-- the statuses that no update may leave
abbrev pub over_statuses : List ShipmentStatus
over_statuses = ShipmentStatus.cancelled ∷ ShipmentStatus.completed ∷ ShipmentStatus.expired ∷ []

-- `CANCELLABLE_STATUSES`
abbrev pub cancellable_statuses : List ShipmentStatus
cancellable_statuses =
    ShipmentStatus.draft ∷ ShipmentStatus.created ∷ ShipmentStatus.broadcasting
    ∷ ShipmentStatus.assigned ∷ ShipmentStatus.en_route_pickup ∷ ShipmentStatus.picked_up
    ∷ ShipmentStatus.en_route_dropoff ∷ ShipmentStatus.delivered ∷ []

abbrev pub may_mutate : UserType → String → Shipment → Bool
may_mutate role viewer s = is_admin role || s.customer_profile_id == viewer

-- a new final price brings its commission, at the new rate or the old one
abbrev pub new_commission : UpdateShipmentDto → Shipment → Option ℤ
new_commission input existing = elim input.final_price_minor [
  | none ↦ none
  | some price ↦
      some
        (calculate_commission price (get_or input.commission_rate_bps existing.commission_rate_bps))
]

-- a field that is not given stays
abbrev pub changed : UpdateShipmentDto → Option ℤ → Shipment → Shipment
changed input commission s = record s {
  tracking_code = get_or input.tracking_code s.tracking_code;
  customer_profile_id = get_or input.customer_profile_id s.customer_profile_id;
  mode = get_or input.mode s.mode;
  vehicle_category = get_or input.vehicle_category s.vehicle_category;
  schedule_type = get_or input.schedule_type s.schedule_type;
  status = get_or input.status s.status;
  pickup_address_id = get_or input.pickup_address_id s.pickup_address_id;
  dropoff_address_id = get_or input.dropoff_address_id s.dropoff_address_id;
  scheduled_at = or_else input.scheduled_at s.scheduled_at;
  package_description = or_else input.package_description s.package_description;
  package_value_minor = or_else input.package_value_minor s.package_value_minor;
  special_instructions = or_else input.special_instructions s.special_instructions;
  requires_escrow = get_or input.requires_escrow s.requires_escrow;
  pricing_currency = get_or input.pricing_currency s.pricing_currency;
  quoted_price_minor = or_else input.quoted_price_minor s.quoted_price_minor;
  final_price_minor = or_else input.final_price_minor s.final_price_minor;
  commission_rate_bps = get_or input.commission_rate_bps s.commission_rate_bps;
  commission_amount_minor = get_or commission s.commission_amount_minor;
  cancelled_at = or_else input.cancelled_at s.cancelled_at;
  cancelled_by_profile_id = or_else input.cancelled_by_profile_id s.cancelled_by_profile_id;
  cancellation_reason = or_else input.cancellation_reason s.cancellation_reason;
}

-- another shipment with the tracking code that the input asks for, which is unique
abbrev pub has_tracking_code_of : UpdateShipmentDto → Shipment → Shipment → Bool
has_tracking_code_of input existing s = elim input.tracking_code [
  | none ↦ false
  | some code ↦ s.tracking_code == code && not (s.id == existing.id)
]

-- the new status, if the input has one and it is another
abbrev pub status_changed : Option ShipmentStatus → ShipmentStatus → Option ShipmentStatus
status_changed none previous = none
status_changed (some next) previous = if eq_status next previous then none else some next

module _ (out : Outside) where
  -- the body of the transaction
  unfoldable pub update_in_transaction :
      String → UserType → Shipment → UpdateShipmentDto → Act Shipment
  update_in_transaction viewer role existing input = do
    clash ← find shipments (has_tracking_code_of input existing)
    throw_if (is_some clash) (prisma "P2002")
    updated ←
        update shipments (λ s. s.id == existing.id) (changed input (new_commission input existing))
    elim (status_changed input.status existing.status) [
      | none ↦ pure tt
      | some next ↦
          record_status out existing.id existing.status next viewer
            (actor_role_of role ShipmentActorRole.customer)
    ]
    pure updated

  unfoldable pub update_shipment : String → String → UpdateShipmentDto → Act Shipment
  update_shipment viewer id input = do
    role ← require_user_role viewer (UserType.admin ∷ UserType.individual ∷ [])
    existing ← find_shipment id
    throw_if (not (may_mutate role viewer existing))
        (forbidden "You are not allowed to update this shipment")
    throw_if (is_one_of over_statuses existing.status) (
        bad_request (
          String.◌++◌ "Cannot update shipment in "
            (String.◌++◌ (status_text existing.status) " status")))
    shipment ← transaction (update_in_transaction viewer role existing input)
    elim (status_changed input.status existing.status) [
      | none ↦ pure tt
      | some next ↦
          notify_shipment_status_change out shipment.id shipment.tracking_code next viewer
            existing.customer_profile_id
            (object (field "previousStatus" (text (status_text existing.status)) end))
    ]
    pure shipment

  -- the body of the transaction
  unfoldable pub cancel_in_transaction : String → UserType → CancelShipmentDto → ℕ → Act Shipment
  cancel_in_transaction viewer role input time = do
    updated ←
        update shipments (λ s. s.id == input.shipment_id)
          (λ s. record s {
            status = ShipmentStatus.cancelled;
            cancelled_at = some time;
            cancelled_by_profile_id = some viewer;
            cancellation_reason = some (trim input.cancellation_reason);
          })
    add_event out updated.id ShipmentEventType.cancelled viewer
        (actor_role_of role ShipmentActorRole.customer)
        (object (field "reason" (text (trim input.cancellation_reason)) end))
    pure updated

  unfoldable pub cancel_shipment : String → CancelShipmentDto → Act Shipment
  cancel_shipment viewer input = do
    role ← require_user_role viewer (UserType.admin ∷ UserType.individual ∷ [])
    shipment ← find_shipment input.shipment_id
    throw_if (not (may_mutate role viewer shipment))
        (forbidden "You are not allowed to cancel this shipment")
    throw_if (not (is_one_of cancellable_statuses shipment.status)) (
        bad_request (
          String.◌++◌ "Shipment in "
            (String.◌++◌ (status_text shipment.status) " status cannot be cancelled")))
    time ← time_now out
    cancelled ← transaction (cancel_in_transaction viewer role input time)
    notify_shipment_status_change out cancelled.id cancelled.tracking_code ShipmentStatus.cancelled
        viewer shipment.customer_profile_id
        (object (field "reason" (text (trim input.cancellation_reason)) end))
    pure cancelled
