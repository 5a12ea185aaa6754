-- ===== src/Shipments/Schema.antt =====
-- Shipments with their items, events and milestones: prisma/schemas/jobs.prisma and
-- milestones.prisma, with the enums of src/graphql/enums.ts. `createdAt` and `updatedAt` are not
-- stored: the order of a table stands for them.
use oyana_backend.Base.{ℕ, String, Bool, true, false, ◌||◌, Option, List, [], ◌∷◌}
use oyana_backend.Base.Int.{ℤ}
use oyana_backend.Value.{Value}

pub data ShipmentMode : Type 0 where
  dispatch marketplace : ShipmentMode

pub data VehicleCategory : Type 0 where
  bike van truck : VehicleCategory

pub data ShipmentScheduleType : Type 0 where
  instant scheduled : ShipmentScheduleType

pub data ShipmentStatus : Type 0 where
  draft created broadcasting assigned en_route_pickup picked_up en_route_dropoff : ShipmentStatus
  delivered completed cancelled expired : ShipmentStatus

pub data ShipmentEventType : Type 0 where
  created broadcasted bid_placed assigned accepted cancelled picked_up delivered : ShipmentEventType
  completed : ShipmentEventType

pub data ShipmentActorRole : Type 0 where
  customer provider admin system : ShipmentActorRole

pub data ShipmentMilestoneType : Type 0 where
  accepted arrived_pickup picked_up arrived_dropoff delivered completed : ShipmentMilestoneType

pub data ShipmentMilestoneStatus : Type 0 where
  pending reached verified : ShipmentMilestoneStatus

pub record Shipment : Type 0 where
  pub id : String
  pub tracking_code : String
  pub customer_profile_id : String
  pub mode : ShipmentMode
  pub vehicle_category : VehicleCategory
  pub schedule_type : ShipmentScheduleType
  pub status : ShipmentStatus
  pub pickup_address_id : String
  pub dropoff_address_id : String
  pub scheduled_at : Option ℕ
  pub package_description : Option String
  pub package_value_minor : Option ℤ
  pub special_instructions : Option String
  pub requires_escrow : Bool
  pub pricing_currency : String
  pub quoted_price_minor : Option ℤ
  pub final_price_minor : Option ℤ
  pub commission_rate_bps : ℤ
  pub commission_amount_minor : ℤ
  pub cancelled_at : Option ℕ
  pub cancelled_by_profile_id : Option String
  pub cancellation_reason : Option String

pub record ShipmentItem : Type 0 where
  pub id : String
  pub shipment_id : String
  pub name : String
  pub quantity : ℤ
  -- a decimal, as it was sent
  pub weight_kg : Value

pub record ShipmentEvent : Type 0 where
  pub id : String
  pub shipment_id : String
  pub event_type : ShipmentEventType
  pub actor_profile_id : Option String
  pub actor_role : Option ShipmentActorRole
  pub metadata : Value

pub record ShipmentMilestone : Type 0 where
  pub id : String
  pub shipment_id : String
  pub type : ShipmentMilestoneType
  pub status : ShipmentMilestoneStatus
  pub occurred_at : Option ℕ

-- a row of platform_configs
pub record PlatformConfig : Type 0 where
  pub key : String
  pub value : Value

-- the enums' `===`
abbrev pub eq_mode : ShipmentMode → ShipmentMode → Bool
eq_mode ShipmentMode.dispatch ShipmentMode.dispatch = true
eq_mode ShipmentMode.marketplace ShipmentMode.marketplace = true
eq_mode _ _ = false

abbrev pub eq_vehicle_category : VehicleCategory → VehicleCategory → Bool
eq_vehicle_category VehicleCategory.bike VehicleCategory.bike = true
eq_vehicle_category VehicleCategory.van VehicleCategory.van = true
eq_vehicle_category VehicleCategory.truck VehicleCategory.truck = true
eq_vehicle_category _ _ = false

abbrev pub eq_status : ShipmentStatus → ShipmentStatus → Bool
eq_status ShipmentStatus.draft ShipmentStatus.draft = true
eq_status ShipmentStatus.created ShipmentStatus.created = true
eq_status ShipmentStatus.broadcasting ShipmentStatus.broadcasting = true
eq_status ShipmentStatus.assigned ShipmentStatus.assigned = true
eq_status ShipmentStatus.en_route_pickup ShipmentStatus.en_route_pickup = true
eq_status ShipmentStatus.picked_up ShipmentStatus.picked_up = true
eq_status ShipmentStatus.en_route_dropoff ShipmentStatus.en_route_dropoff = true
eq_status ShipmentStatus.delivered ShipmentStatus.delivered = true
eq_status ShipmentStatus.completed ShipmentStatus.completed = true
eq_status ShipmentStatus.cancelled ShipmentStatus.cancelled = true
eq_status ShipmentStatus.expired ShipmentStatus.expired = true
eq_status _ _ = false

abbrev pub eq_event_type : ShipmentEventType → ShipmentEventType → Bool
eq_event_type ShipmentEventType.created ShipmentEventType.created = true
eq_event_type ShipmentEventType.broadcasted ShipmentEventType.broadcasted = true
eq_event_type ShipmentEventType.bid_placed ShipmentEventType.bid_placed = true
eq_event_type ShipmentEventType.assigned ShipmentEventType.assigned = true
eq_event_type ShipmentEventType.accepted ShipmentEventType.accepted = true
eq_event_type ShipmentEventType.cancelled ShipmentEventType.cancelled = true
eq_event_type ShipmentEventType.picked_up ShipmentEventType.picked_up = true
eq_event_type ShipmentEventType.delivered ShipmentEventType.delivered = true
eq_event_type ShipmentEventType.completed ShipmentEventType.completed = true
eq_event_type _ _ = false

abbrev pub eq_milestone_type : ShipmentMilestoneType → ShipmentMilestoneType → Bool
eq_milestone_type ShipmentMilestoneType.accepted ShipmentMilestoneType.accepted = true
eq_milestone_type ShipmentMilestoneType.arrived_pickup ShipmentMilestoneType.arrived_pickup = true
eq_milestone_type ShipmentMilestoneType.picked_up ShipmentMilestoneType.picked_up = true
eq_milestone_type ShipmentMilestoneType.arrived_dropoff ShipmentMilestoneType.arrived_dropoff = true
eq_milestone_type ShipmentMilestoneType.delivered ShipmentMilestoneType.delivered = true
eq_milestone_type ShipmentMilestoneType.completed ShipmentMilestoneType.completed = true
eq_milestone_type _ _ = false

-- `statuses.includes(status)`
abbrev pub is_one_of : List ShipmentStatus → ShipmentStatus → Bool
is_one_of [] s = false
is_one_of (x ∷ xs) s = eq_status x s || is_one_of xs s

-- the text of a status, as the enum has it
abbrev pub status_text : ShipmentStatus → String
status_text ShipmentStatus.draft = "draft"
status_text ShipmentStatus.created = "created"
status_text ShipmentStatus.broadcasting = "broadcasting"
status_text ShipmentStatus.assigned = "assigned"
status_text ShipmentStatus.en_route_pickup = "en_route_pickup"
status_text ShipmentStatus.picked_up = "picked_up"
status_text ShipmentStatus.en_route_dropoff = "en_route_dropoff"
status_text ShipmentStatus.delivered = "delivered"
status_text ShipmentStatus.completed = "completed"
status_text ShipmentStatus.cancelled = "cancelled"
status_text ShipmentStatus.expired = "expired"

abbrev pub mode_text : ShipmentMode → String
mode_text ShipmentMode.dispatch = "dispatch"
mode_text ShipmentMode.marketplace = "marketplace"

abbrev pub category_text : VehicleCategory → String
category_text VehicleCategory.bike = "bike"
category_text VehicleCategory.van = "van"
category_text VehicleCategory.truck = "truck"
