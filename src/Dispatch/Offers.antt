-- ===== src/Dispatch/Offers.antt =====
-- What an administrator may do by hand in dispatch.service.ts: `createDispatchBatch`,
-- `sendDispatchOffer`, and the writes of assignments.
use oyana_backend.Base.{
  ℕ, String, Bool, ◌&&◌, ◌||◌, false, Option, none, some, not, is_some, or_else, ◌==◌,
}
use oyana_backend.Base.Int.{ℤ}
use oyana_backend.Value.{Value}
use oyana_backend.Db.{batches, offers, assignments}
use oyana_backend.Act.{Act, prisma, or_throw, throw_if, find, create, update, ◌>>=◌, ◌>>◌}
use oyana_backend.Outside.{Outside, new_id, time_now}
use oyana_backend.Dispatch.Schema.{
  DispatchBatch, DispatchOffer, ShipmentAssignment, DispatchBatchStatus, DispatchOfferStatus,
  ShipmentAssignmentStatus,
}

pub record CreateDispatchBatchDto : Type 0 where
  pub shipment_id : String
  pub expires_at : Option ℕ

pub record CreateDispatchOfferDto : Type 0 where
  pub batch_id : String
  pub provider_id : String
  pub shipment_id : String
  pub expires_at : Option ℕ
  pub provider_eta_minutes : Option ℕ
  pub metadata : Value

pub record AssignShipmentDto : Type 0 where
  pub shipment_id : String
  pub provider_id : String
  pub driver_profile_id : Option String
  pub dispatch_offer_id : Option String
  pub agreed_price_minor : Option ℤ
  pub currency : Option String

-- a unique column that may be null
abbrev pub clashes_with : Option String → Option String → Bool
clashes_with (some a) (some b) = a == b
clashes_with _ _ = false

module _ (out : Outside) where
  unfoldable pub create_dispatch_batch : CreateDispatchBatchDto → Act DispatchBatch
  create_dispatch_batch input = do
    time ← time_now out
    id ← new_id out
    create batches (λ b. b.id == id || b.shipment_id == input.shipment_id)
        (record {
          id = id;
          shipment_id = input.shipment_id;
          status = DispatchBatchStatus.open';
          opened_at = some time;
          closed_at = none;
          expires_at = input.expires_at;
        })

  unfoldable pub send_dispatch_offer : CreateDispatchOfferDto → Act DispatchOffer
  send_dispatch_offer input = do
    time ← time_now out
    id ← new_id out
    create offers
        (λ o. o.id == id || o.batch_id == input.batch_id && o.provider_id == input.provider_id)
        (record {
          id = id;
          batch_id = input.batch_id;
          shipment_id = input.shipment_id;
          provider_id = input.provider_id;
          status = DispatchOfferStatus.sent;
          sent_at = some time;
          responded_at = none;
          expires_at = input.expires_at;
          provider_eta_minutes = input.provider_eta_minutes;
          counter_amount_minor = none;
          counter_currency = none;
          counter_message = none;
          countered_at = none;
          metadata = input.metadata;
        })

  unfoldable pub create_shipment_assignment : AssignShipmentDto → Act ShipmentAssignment
  create_shipment_assignment input = do
    id ← new_id out
    create assignments
        (λ a.
          a.id == id
          || a.shipment_id == input.shipment_id
          || clashes_with a.dispatch_offer_id input.dispatch_offer_id)
        (record {
          id = id;
          shipment_id = input.shipment_id;
          provider_id = input.provider_id;
          driver_profile_id = input.driver_profile_id;
          dispatch_offer_id = input.dispatch_offer_id;
          status = ShipmentAssignmentStatus.active;
          agreed_price_minor = input.agreed_price_minor;
          currency = input.currency;
          completed_at = none;
          cancelled_at = none;
          cancellation_reason = none;
        })

  unfoldable pub cancel_shipment_assignment : String → Act ShipmentAssignment
  cancel_shipment_assignment id = do
    time ← time_now out
    update assignments (λ a. a.id == id)
        (λ a. record a { status = ShipmentAssignmentStatus.cancelled; cancelled_at = some time })

  -- the unique columns of an assignment that another one has
  abbrev is_taken_from : String → AssignShipmentDto → ShipmentAssignment → Bool
  is_taken_from id input a =
      not (a.id == id)
      && (a.shipment_id == input.shipment_id
          || clashes_with a.dispatch_offer_id input.dispatch_offer_id)

  unfoldable pub update_shipment_assignment : String → AssignShipmentDto → Act ShipmentAssignment
  update_shipment_assignment id input = do
    found ← find assignments (λ a. a.id == id)
    existing ← or_throw found (prisma "P2025")
    clash ← find assignments (is_taken_from id input)
    throw_if (is_some clash) (prisma "P2002")
    update assignments (λ a. a.id == id)
        (λ a. record a {
          shipment_id = input.shipment_id;
          provider_id = input.provider_id;
          driver_profile_id = or_else input.driver_profile_id a.driver_profile_id;
          dispatch_offer_id = or_else input.dispatch_offer_id a.dispatch_offer_id;
          agreed_price_minor = or_else input.agreed_price_minor a.agreed_price_minor;
          currency = or_else input.currency a.currency;
        })
