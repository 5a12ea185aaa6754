-- ===== src/Shipments/Create.antt =====
-- `createShipment` and `addShipmentItem` of shipments.service.ts. The job that a new dispatch
-- shipment puts on the queue is left out.
use Prim.Native.String
use oyana_backend.Base.{
  ℕ, String, Bool, false, not, ◌||◌, ◌&&◌, Option, none, some, List, [], ◌∷◌, if◌then◌else◌, ⊤,
  ◌==◌, get_or, or_else, is_some,
}
use oyana_backend.Base.Int.{ℤ, pos}
use oyana_backend.Base.Text.{trim}
use oyana_backend.Value.{Value, object, field, end, text, num}
use oyana_backend.Db.{shipments, items, milestones}
use oyana_backend.Profile.Enums.{UserType}
use oyana_backend.Provider.Access.{require_user_role}
use oyana_backend.Notifications.Schema.{NotificationCategory}
use oyana_backend.Notifications.{NotificationContent, notify_profile, notify_admins}
use oyana_backend.Shipments.Schema.{
  Shipment, ShipmentItem, ShipmentStatus, ShipmentMode, VehicleCategory, ShipmentScheduleType,
  ShipmentEventType, ShipmentActorRole, ShipmentMilestoneType, ShipmentMilestoneStatus,
  eq_milestone_type, mode_text, category_text, status_text,
}
use oyana_backend.Shipments.Pricing.{
  EstimateShipmentBasePriceDto, ShipmentBasePriceEstimate, calculate_commission, max_ℤ,
  get_allowed_shipment_currencies, build_shipment_base_price_estimate,
}
use oyana_backend.Shipments.Change.{may_mutate}
use oyana_backend.Shipments.{find_shipment, actor_role_of, add_event, resolve_notification_audience}
use oyana_backend.Act.{
  Act, pure, bad_request, forbidden, throw_if, transaction, find, create, ask, ok, ◌>>=◌, ◌>>◌,
}
use oyana_backend.Outside.{Outside, new_id}

pub record CreateShipmentDto : Type 0 where
  pub tracking_code : Option String
  pub customer_profile_id : String
  pub mode : ShipmentMode
  pub vehicle_category : VehicleCategory
  pub schedule_type : Option ShipmentScheduleType
  pub pickup_address_id : String
  pub dropoff_address_id : String
  pub scheduled_at : Option ℕ
  pub package_description : Option String
  pub package_value_minor : Option ℤ
  pub special_instructions : Option String
  pub requires_escrow : Option Bool
  pub pricing_currency : Option String
  pub quoted_price_minor : Option ℤ
  pub final_price_minor : Option ℤ

pub record AddShipmentItemDto : Type 0 where
  pub shipment_id : String
  pub name : String
  pub quantity : ℤ
  pub weight_kg : Value

abbrev estimate_input : CreateShipmentDto → EstimateShipmentBasePriceDto
estimate_input input = record {
  pickup_address_id = some input.pickup_address_id;
  pickup_lat = none;
  pickup_lng = none;
  dropoff_address_id = some input.dropoff_address_id;
  dropoff_lat = none;
  dropoff_lng = none;
  currency = input.pricing_currency;
}

abbrev estimated : Option ShipmentBasePriceEstimate → Option ℤ
estimated none = none
estimated (some e) = some e.base_price_minor

abbrev estimated_currency : Option ShipmentBasePriceEstimate → Option String
estimated_currency none = none
estimated_currency (some e) = some e.currency

abbrev first : List String → Option String
first [] = none
first (c ∷ cs) = some c

-- what the shipment costs
pub record Prices : Type 0 where
  pub quoted : Option ℤ
  pub final : Option ℤ
  pub currency : String

-- the columns' defaults are those of the schema
abbrev pub shipment_row : String → String → CreateShipmentDto → Prices → ℤ → Shipment
shipment_row id tracking_code input prices rate = record {
  id = id;
  tracking_code = tracking_code;
  customer_profile_id = input.customer_profile_id;
  mode = input.mode;
  vehicle_category = input.vehicle_category;
  schedule_type = get_or input.schedule_type ShipmentScheduleType.instant;
  status = ShipmentStatus.created;
  pickup_address_id = input.pickup_address_id;
  dropoff_address_id = input.dropoff_address_id;
  scheduled_at = input.scheduled_at;
  package_description = input.package_description;
  package_value_minor = some (get_or input.package_value_minor (pos 0));
  special_instructions = input.special_instructions;
  requires_escrow = get_or input.requires_escrow false;
  pricing_currency = prices.currency;
  quoted_price_minor = prices.quoted;
  final_price_minor = prices.final;
  commission_rate_bps = rate;
  commission_amount_minor = elim prices.final [
    | none ↦ pos 0
    | some price ↦ calculate_commission price rate
  ];
  cancelled_at = none;
  cancelled_by_profile_id = none;
  cancellation_reason = none;
}

abbrev initial_milestones : List ShipmentMilestoneType
initial_milestones =
    ShipmentMilestoneType.accepted ∷ ShipmentMilestoneType.arrived_pickup
    ∷ ShipmentMilestoneType.picked_up ∷ ShipmentMilestoneType.arrived_dropoff
    ∷ ShipmentMilestoneType.delivered ∷ ShipmentMilestoneType.completed ∷ []

abbrev content : String → String → Shipment → Value → NotificationContent
content title body s metadata = record {
  category = NotificationCategory.shipment;
  title = title;
  body = body;
  entity_type = some "shipment";
  entity_id = some s.id;
  metadata = metadata;
}

module _ (out : Outside) where
  unfoldable pub estimate_if_needed : CreateShipmentDto → Act (Option ShipmentBasePriceEstimate)
  estimate_if_needed input =
      if is_some input.quoted_price_minor && is_some input.final_price_minor then pure none else do
        e ←
            build_shipment_base_price_estimate out (estimate_input input) input.customer_profile_id
              false
        pure (some e)

  abbrev pub prices_of : CreateShipmentDto → Option ShipmentBasePriceEstimate → Prices
  prices_of input estimate =
      let quoted = or_else input.quoted_price_minor (estimated estimate) in
      record {
        quoted = quoted;
        final = or_else input.final_price_minor quoted;
        currency =
            get_or
              (or_else input.pricing_currency (
                or_else (estimated_currency estimate)
                  (first (get_allowed_shipment_currencies out))))
              "NGN";
      }

  -- one row of `createMany` with `skipDuplicates`
  unfoldable pub add_milestones : String → List ShipmentMilestoneType → Act ⊤
  add_milestones shipment_id [] = pure tt
  add_milestones shipment_id (type ∷ types) = do
    id ← new_id out
    existing ←
        find milestones
          (λ m. m.id == id || m.shipment_id == shipment_id && eq_milestone_type m.type type)
    elim existing [
      | some m ↦ pure tt
      | none ↦ (do
        create milestones
            (λ m. m.id == id || m.shipment_id == shipment_id && eq_milestone_type m.type type)
            (record {
              id = id;
              shipment_id = shipment_id;
              type = type;
              status = ShipmentMilestoneStatus.pending;
              occurred_at = none;
            })
        pure tt)
    ]
    add_milestones shipment_id types

  unfoldable pub create_initial_milestones : String → Act ⊤
  create_initial_milestones shipment_id = add_milestones shipment_id initial_milestones

  unfoldable pub tracking_code_of : Option String → Act String
  tracking_code_of (some code) = pure code
  tracking_code_of none = ask λ n. ok (out.tracking_code n)

  -- the body of the transaction
  unfoldable pub create_in_transaction : CreateShipmentDto → Prices → Act Shipment
  create_in_transaction input prices = do
    code ← tracking_code_of input.tracking_code
    id ← new_id out
    shipment ←
        create shipments (λ s. s.id == id || s.tracking_code == code)
          (shipment_row id code input prices out.default_commission_rate_bps)
    add_event out shipment.id ShipmentEventType.created input.customer_profile_id
        ShipmentActorRole.customer
        (object (
          field "mode" (text (mode_text shipment.mode))
            (field "vehicleCategory" (text (category_text shipment.vehicle_category)) end)))
    create_initial_milestones shipment.id
    pure shipment

  unfoldable pub announce_created : Shipment → Act ⊤
  announce_created s = do
    audience ← resolve_notification_audience s.customer_profile_id
    notify_profile out s.customer_profile_id audience (
        content (String.◌++◌ "Shipment " (String.◌++◌ s.tracking_code " created"))
          "Your shipment is now in the dispatch pipeline." s
          (object (
            field "status" (text (status_text s.status))
              (field "mode" (text (mode_text s.mode)) end))))
    notify_admins out (
        content (String.◌++◌ "New shipment " s.tracking_code)
          (String.◌++◌ (mode_text s.mode)
            (String.◌++◌ " " (String.◌++◌ (category_text s.vehicle_category) " shipment created.")))
          s (object (field "customerProfileId" (text s.customer_profile_id) end)))

  unfoldable pub create_shipment : CreateShipmentDto → Act Shipment
  create_shipment input = do
    estimate ← estimate_if_needed input
    shipment ← transaction (create_in_transaction input (prices_of input estimate))
    announce_created shipment
    pure shipment

  -- the body of the transaction
  unfoldable pub add_item_in_transaction :
      String → UserType → AddShipmentItemDto → String → Act ShipmentItem
  add_item_in_transaction viewer role input name = do
    id ← new_id out
    item ←
        create items (λ i. i.id == id)
          (record {
            id = id;
            shipment_id = input.shipment_id;
            name = name;
            quantity = max_ℤ (pos 1) input.quantity;
            weight_kg = input.weight_kg;
          })
    add_event out input.shipment_id ShipmentEventType.created viewer
        (actor_role_of role ShipmentActorRole.customer)
        (object (
          field "action" (text "add_shipment_item") (
            field "itemId" (text item.id)
              (field "name" (text item.name) (field "quantity" (num item.quantity) end)))))
    pure item

  unfoldable pub add_shipment_item : String → AddShipmentItemDto → Act ShipmentItem
  add_shipment_item viewer input = do
    role ← require_user_role viewer (UserType.admin ∷ UserType.individual ∷ [])
    shipment ← find_shipment input.shipment_id
    throw_if (not (may_mutate role viewer shipment))
        (forbidden "You are not allowed to add shipment items for this shipment")
    throw_if (trim input.name == "") (bad_request "Shipment item name is required")
    transaction (add_item_in_transaction viewer role input (trim input.name))
