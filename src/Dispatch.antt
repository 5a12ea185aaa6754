-- ===== src/Dispatch.antt =====
-- src/dispatch/dispatch.service.ts: providers answer the offers of a dispatch shipment, the shipper
-- answers their counter offers, and the provider that is assigned reports its progress.
pub mod Schema
pub mod Notices
pub mod Respond
pub mod Review
pub mod Progress
pub mod Offers
pub mod Eligible
pub mod Exclusive
pub mod Quiet
pub mod Keeps
pub mod Answers
pub mod Requests
pub mod Office
pub mod Route
pub mod Sweep
pub mod Served
pub mod Broadcast
mod Tests
use Prim.Native.String
use oyana_backend.Base.{
  ℕ, String, Bool, true, false, not, ◌&&◌, ◌||◌, Option, none, some, List, [], ◌∷◌, if◌then◌else◌,
  ⊤, ◌==◌, is_some, get_or, or_else, leb,
}
use oyana_backend.Base.Int.{ℤ, pos, ltb_ℤ}
use oyana_backend.Base.Text.{trim, to_upper}
use oyana_backend.Db.{providers, shipments, offers, batches, assignments}
use oyana_backend.Profile.Enums.{UserType}
use oyana_backend.Shipments.Schema.{
  Shipment, ShipmentStatus, ShipmentMode, eq_mode, eq_vehicle_category, is_one_of, status_text,
}
use oyana_backend.Provider.Schema.{Provider}
use oyana_backend.Provider.Access.{require_operational_provider_id, require_user_role, is_admin}
use oyana_backend.MarketPlace.{shipment_missing, is_category}
use oyana_backend.Act.{
  Act, pure, bad_request, forbidden, not_found, conflict, or_throw, throw_if, transaction, find,
  create, update, update_many, update_count, ◌>>=◌, ◌>>◌,
}
use oyana_backend.Outside.{Outside, new_id, time_now}
use Schema.{
  DispatchBatch, DispatchOffer, ShipmentAssignment, DispatchBatchStatus, DispatchOfferStatus,
  ShipmentAssignmentStatus, is_offer_accepted, is_offer_declined, is_offer_countered,
  is_assignment_active, assignment_status_text,
}

pub record UpdateDispatchOfferDto : Type 0 where
  pub offer_id : String
  pub status : DispatchOfferStatus
  pub responded_at : Option ℕ
  pub provider_eta_minutes : Option ℕ
  pub counter_amount_minor : Option ℤ
  pub counter_currency : Option String
  pub counter_message : Option String

pub record RespondToShipmentDispatchOfferDto : Type 0 where
  pub offer_id : String
  pub shipment_id : String
  pub status : DispatchOfferStatus
  pub responded_at : Option ℕ

unfoldable pub can_respond_to_offer : DispatchOfferStatus → Bool
can_respond_to_offer DispatchOfferStatus.sent = true
can_respond_to_offer DispatchOfferStatus.viewed = true
can_respond_to_offer _ = false

unfoldable pub can_owner_respond_to_counter_offer : DispatchOfferStatus → Bool
can_owner_respond_to_counter_offer status = is_offer_countered status

abbrev pub is_pending : DispatchOfferStatus → Bool
is_pending DispatchOfferStatus.sent = true
is_pending DispatchOfferStatus.viewed = true
is_pending DispatchOfferStatus.countered = true
is_pending _ = false

abbrev pub conflict_message : String
conflict_message = "Dispatch offer can no longer be accepted because shipment is already assigned"

-- `offer.expiresAt && offer.expiresAt.getTime() <= now`
abbrev pub is_expired : Option ℕ → ℕ → Bool
is_expired none time = false
is_expired (some at) time = leb at time

-- `finalPriceMinor ?? quotedPriceMinor`
abbrev pub price_of : Shipment → Option ℤ
price_of s = or_else s.final_price_minor s.quoted_price_minor

abbrev pub open_for_counters : List ShipmentStatus
open_for_counters = ShipmentStatus.created ∷ ShipmentStatus.broadcasting ∷ []

abbrev pub open_for_acceptance : List ShipmentStatus
open_for_acceptance =
    ShipmentStatus.created ∷ ShipmentStatus.broadcasting ∷ ShipmentStatus.assigned ∷ []

abbrev pub is_not_above : ℤ → Option ℤ → Bool
is_not_above amount none = false
is_not_above amount (some price) = not (ltb_ℤ price amount)

-- `text?.trim() || undefined`
abbrev pub trimmed_message : Option String → Option String
trimmed_message none = none
trimmed_message (some s) = if trim s == "" then none else some (trim s)

-- the assignment that is there belongs to this provider and is active
abbrev pub is_own_active : String → ShipmentAssignment → Bool
is_own_active provider_id a = a.provider_id == provider_id && is_assignment_active a.status

abbrev pub taken_by_other : String → Option ShipmentAssignment → Bool
taken_by_other provider_id none = false
taken_by_other provider_id (some a) = not (is_own_active provider_id a)

abbrev pub is_available : Option Provider → Bool
is_available none = false
is_available (some p) = p.is_available

abbrev pub matches_category : Option Provider → Shipment → Bool
matches_category none s = false
matches_category (some p) s = is_category p.driver_type s.vehicle_category

unfoldable pub find_shipment : String → Act Shipment
find_shipment id = do
  found ← find shipments (λ s. s.id == id)
  or_throw found (not_found (shipment_missing id))

unfoldable pub find_provider_offer : String → String → Act DispatchOffer
find_provider_offer provider_id offer_id = do
  found ← find offers (λ o. o.id == offer_id && o.provider_id == provider_id)
  or_throw found (not_found "Dispatch offer not found for this provider")

unfoldable pub require_provider_owned_active_assignment : String → String → Act ShipmentAssignment
require_provider_owned_active_assignment provider_id shipment_id = do
  found ← find assignments (λ a. a.shipment_id == shipment_id && a.provider_id == provider_id)
  assignment ←
      or_throw found (forbidden "This shipment is not assigned to the authenticated provider")
  throw_if (not (is_assignment_active assignment.status)) (
      bad_request (
        String.◌++◌ "Shipment assignment is "
          (String.◌++◌ (assignment_status_text assignment.status) " and cannot be updated")))
  pure assignment

-- The offers of the shipment that wait for an answer, but for `offer_id`, are cancelled, and the
-- batch is closed.
unfoldable pub close_batch : DispatchOffer → ℕ → Act ⊤
close_batch offer time = do
  update_many offers
      (λ o. o.shipment_id == offer.shipment_id && not (o.id == offer.id) && is_pending o.status)
      (λ o. record o { status = DispatchOfferStatus.cancelled })
  update batches (λ b. b.id == offer.batch_id)
      (λ b. record b { status = DispatchBatchStatus.assigned; closed_at = some time })
  pure tt

-- the answer to an offer that another request has just accepted
unfoldable pub refreshed_offer : String → Act DispatchOffer
refreshed_offer offer_id = do
  found ← find offers (λ o. o.id == offer_id)
  offer ← or_throw found (conflict conflict_message)
  throw_if (not (is_offer_accepted offer.status)) (conflict conflict_message)
  pure offer
