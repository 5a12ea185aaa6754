-- ===== src/Dispatch/Schema.antt =====
-- Batches, offers and assignments: prisma/schemas/dispatch.prisma, with the enums of
-- src/graphql/enums.ts.
use oyana_backend.Base.{ℕ, String, Bool, true, false, Option}
use oyana_backend.Base.Int.{ℤ}
use oyana_backend.Value.{Value}

pub data DispatchBatchStatus : Type 0 where
  open' closed assigned expired cancelled : DispatchBatchStatus

pub data DispatchOfferStatus : Type 0 where
  sent viewed countered accepted declined expired cancelled : DispatchOfferStatus

pub data ShipmentAssignmentStatus : Type 0 where
  active completed cancelled : ShipmentAssignmentStatus

pub record DispatchBatch : Type 0 where
  pub id : String
  pub shipment_id : String
  pub status : DispatchBatchStatus
  pub opened_at : Option ℕ
  pub closed_at : Option ℕ
  pub expires_at : Option ℕ

pub record DispatchOffer : Type 0 where
  pub id : String
  pub batch_id : String
  pub shipment_id : String
  pub provider_id : String
  pub status : DispatchOfferStatus
  pub sent_at : Option ℕ
  pub responded_at : Option ℕ
  pub expires_at : Option ℕ
  pub provider_eta_minutes : Option ℕ
  pub counter_amount_minor : Option ℤ
  pub counter_currency : Option String
  pub counter_message : Option String
  pub countered_at : Option ℕ
  pub metadata : Value

pub record ShipmentAssignment : Type 0 where
  pub id : String
  pub shipment_id : String
  pub provider_id : String
  pub driver_profile_id : Option String
  pub dispatch_offer_id : Option String
  pub status : ShipmentAssignmentStatus
  pub agreed_price_minor : Option ℤ
  pub currency : Option String
  pub completed_at : Option ℕ
  pub cancelled_at : Option ℕ
  pub cancellation_reason : Option String

-- the enums' `===`
abbrev pub is_batch_assigned : DispatchBatchStatus → Bool
is_batch_assigned DispatchBatchStatus.assigned = true
is_batch_assigned _ = false

abbrev pub is_batch_open : DispatchBatchStatus → Bool
is_batch_open DispatchBatchStatus.open' = true
is_batch_open _ = false

abbrev pub is_offer_accepted : DispatchOfferStatus → Bool
is_offer_accepted DispatchOfferStatus.accepted = true
is_offer_accepted _ = false

abbrev pub is_offer_declined : DispatchOfferStatus → Bool
is_offer_declined DispatchOfferStatus.declined = true
is_offer_declined _ = false

abbrev pub is_offer_countered : DispatchOfferStatus → Bool
is_offer_countered DispatchOfferStatus.countered = true
is_offer_countered _ = false

abbrev pub is_assignment_active : ShipmentAssignmentStatus → Bool
is_assignment_active ShipmentAssignmentStatus.active = true
is_assignment_active _ = false

abbrev pub assignment_status_text : ShipmentAssignmentStatus → String
assignment_status_text ShipmentAssignmentStatus.active = "active"
assignment_status_text ShipmentAssignmentStatus.completed = "completed"
assignment_status_text ShipmentAssignmentStatus.cancelled = "cancelled"
