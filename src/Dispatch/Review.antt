-- ===== src/Dispatch/Review.antt =====
-- `respondToShipmentDispatchOffer` of dispatch.service.ts: the shipper declines or accepts a
-- provider's counter offer.
use Prim.Native.String
use oyana_backend.Base.{
  ℕ, String, not, ◌&&◌, Option, none, some, [], ◌∷◌, if◌then◌else◌, ⊤, ◌==◌, get_or, or_else,
}
use oyana_backend.Base.Int.{ℤ}
use oyana_backend.Db.{providers, shipments, offers, assignments}
use oyana_backend.Profile.Enums.{UserType}
use oyana_backend.Shipments.Schema.{
  Shipment, ShipmentStatus, ShipmentMode, eq_mode, is_one_of, status_text,
}
use oyana_backend.Provider.Access.{require_user_role, is_admin}
use oyana_backend.Act.{
  Act, pure, throw, bad_request, forbidden, not_found, conflict, or_throw, throw_if, transaction,
  find, create, update, update_count, ◌>>=◌, ◌>>◌,
}
use oyana_backend.Outside.{Outside, new_id, time_now}
use oyana_backend.Dispatch.Schema.{
  DispatchOffer, ShipmentAssignment, DispatchOfferStatus, ShipmentAssignmentStatus,
  is_offer_accepted, is_offer_declined, is_offer_countered,
}
use oyana_backend.Dispatch.Notices.{
  publish_dispatch_offer_updates, notify_counter_declined, notify_counter_accepted,
}
use oyana_backend.Dispatch.Respond.{assignment_row, same_assignment}
use oyana_backend.Dispatch.{
  RespondToShipmentDispatchOfferDto, can_owner_respond_to_counter_offer, conflict_message, price_of,
  open_for_acceptance, taken_by_other, is_available, matches_category, find_shipment, close_batch,
  refreshed_offer,
}

-- the shipment, if it is a dispatch request and the profile may review its counter offers
unfoldable pub find_reviewed_shipment : String → UserType → String → Act Shipment
find_reviewed_shipment profile_id role shipment_id = do
  shipment ← find_shipment shipment_id
  throw_if (not (eq_mode shipment.mode ShipmentMode.dispatch))
      (bad_request "Shipment is not a dispatch request")
  throw_if (not (is_admin role) && not (shipment.customer_profile_id == profile_id))
      (forbidden "Only the shipment owner can review dispatch counters")
  pure shipment

unfoldable pub find_shipment_offer : String → String → Act DispatchOffer
find_shipment_offer offer_id shipment_id = do
  found ← find offers (λ o. o.id == offer_id && o.shipment_id == shipment_id)
  or_throw found (not_found "Dispatch offer not found for this shipment")

-- `counterAmountMinor ?? finalPriceMinor ?? quotedPriceMinor`
abbrev pub agreed_price : DispatchOffer → Shipment → Option ℤ
agreed_price offer shipment = or_else offer.counter_amount_minor (price_of shipment)

abbrev pub agreed_currency : DispatchOffer → Shipment → String
agreed_currency offer shipment = get_or offer.counter_currency shipment.pricing_currency

-- the assignment of the same provider takes the agreed terms
abbrev pub reassigned : DispatchOffer → ℤ → String → ShipmentAssignment → ShipmentAssignment
reassigned offer price currency a = record a {
  provider_id = offer.provider_id;
  dispatch_offer_id = some offer.id;
  status = ShipmentAssignmentStatus.active;
  agreed_price_minor = some price;
  currency = some currency;
  cancelled_at = none;
  cancellation_reason = none;
}

module _ (out : Outside) where
  unfoldable pub decline_counter :
      RespondToShipmentDispatchOfferDto → Shipment → DispatchOffer → Act DispatchOffer
  decline_counter input shipment offer = do
    throw_if (not (can_owner_respond_to_counter_offer offer.status))
        (bad_request "Only pending counter offers can be declined by the shipper")
    time ← time_now out
    updated ←
        update offers (λ o. o.id == offer.id)
          (λ o. record o {
            status = DispatchOfferStatus.declined;
            responded_at = some (get_or input.responded_at time);
          })
    notify_counter_declined out shipment updated
    publish_dispatch_offer_updates updated.shipment_id (some updated.id)
    pure updated

  unfoldable pub decline_shipment_dispatch_offer :
      String → RespondToShipmentDispatchOfferDto → Act DispatchOffer
  decline_shipment_dispatch_offer profile_id input = do
    role ← require_user_role profile_id (UserType.admin ∷ UserType.individual ∷ [])
    shipment ← find_reviewed_shipment profile_id role input.shipment_id
    offer ← find_shipment_offer input.offer_id input.shipment_id
    if is_offer_declined offer.status then pure offer else decline_counter input shipment offer

  unfoldable pub assign_counter : Option ShipmentAssignment → DispatchOffer → ℤ → String → Act ⊤
  assign_counter none offer price currency = do
    id ← new_id out
    create assignments (same_assignment id offer.shipment_id offer.id)
        (assignment_row id offer (some price) (some currency))
    pure tt
  assign_counter (some existing) offer price currency = do
    update assignments (λ a. a.id == existing.id) (reassigned offer price currency)
    pure tt

  -- the writes once the offer is accepted
  unfoldable pub agree :
      DispatchOffer → Shipment → Option ShipmentAssignment → ℕ → DispatchOffer → Act ⊤
  agree offer shipment existing time updated = do
    price ←
        or_throw (agreed_price updated shipment)
          (bad_request "Unable to resolve the agreed shipment price for this assignment")
    throw_if (agreed_currency updated shipment == "")
        (bad_request "Unable to resolve the agreed shipment price for this assignment")
    assign_counter existing offer price (agreed_currency updated shipment)
    update shipments (λ s. s.id == shipment.id)
        (λ s. record s {
          status = ShipmentStatus.assigned;
          final_price_minor = some price;
          pricing_currency = agreed_currency updated shipment;
        })
    close_batch offer time

  unfoldable pub settle_counter :
      RespondToShipmentDispatchOfferDto
      → ℕ
      → DispatchOffer
      → Shipment
      → Option ShipmentAssignment
      → Act (DispatchOffer × Option Shipment)
  settle_counter input time offer shipment existing = do
    accepted ←
        update_count offers (λ o. o.id == offer.id && is_offer_countered o.status)
          (λ o. record o {
            status = DispatchOfferStatus.accepted;
            responded_at = some (get_or input.responded_at time);
          })
    if accepted
        then (do
          found ← find offers (λ o. o.id == offer.id)
          updated ← or_throw found (not_found "Dispatch offer no longer exists")
          agree offer shipment existing time updated
          pure (updated, some shipment))
        else do refreshed ← refreshed_offer offer.id; pure (refreshed, none)

  -- a counter offer that waits for the shipper
  unfoldable pub accept_counter :
      RespondToShipmentDispatchOfferDto
      → ℕ
      → DispatchOffer
      → Shipment
      → Act (DispatchOffer × Option Shipment)
  accept_counter input time offer shipment = do
    throw_if (not (can_owner_respond_to_counter_offer offer.status))
        (bad_request "Only pending counter offers can be accepted by the shipper")
    throw_if (not (is_one_of open_for_acceptance shipment.status)) (
        bad_request (
          String.◌++◌ "Cannot accept counter offer from shipment status "
            (status_text shipment.status)))
    provider ← find providers (λ p. p.id == offer.provider_id)
    throw_if (not (is_available provider))
        (conflict "Provider is currently unavailable and cannot receive this assignment")
    throw_if (not (matches_category provider shipment))
        (conflict "Driver category no longer matches this dispatch shipment")
    existing ← find assignments (λ a. a.shipment_id == shipment.id)
    throw_if (taken_by_other offer.provider_id existing) (conflict conflict_message)
    settle_counter input time offer shipment existing

  -- the body of the transaction; the row lock (`FOR UPDATE`) only orders it after others
  unfoldable pub review_in_transaction :
      String
      → UserType
      → RespondToShipmentDispatchOfferDto
      → ℕ
      → Act (DispatchOffer × Option Shipment)
  review_in_transaction profile_id role input time = do
    shipment ← find_reviewed_shipment profile_id role input.shipment_id
    offer ← find_shipment_offer input.offer_id input.shipment_id
    if is_offer_accepted offer.status
        then pure (offer, none)
        else accept_counter input time offer shipment

  abbrev pub tell_counter_accepted : DispatchOffer → Option Shipment → Act ⊤
  tell_counter_accepted offer none = pure tt
  tell_counter_accepted offer (some shipment) = notify_counter_accepted out shipment offer

  unfoldable pub accept_shipment_dispatch_offer :
      String → RespondToShipmentDispatchOfferDto → Act DispatchOffer
  accept_shipment_dispatch_offer profile_id input = do
    time ← time_now out
    role ← require_user_role profile_id (UserType.admin ∷ UserType.individual ∷ [])
    answer ← transaction (review_in_transaction profile_id role input time)
    tell_counter_accepted answer.0 answer.1
    publish_dispatch_offer_updates (answer.0).shipment_id none
    pure answer.0

  unfoldable pub respond_to_shipment_dispatch_offer :
      String → RespondToShipmentDispatchOfferDto → Act DispatchOffer
  respond_to_shipment_dispatch_offer profile_id input = elim input.status [
    | DispatchOfferStatus.accepted ↦ accept_shipment_dispatch_offer profile_id input
    | DispatchOfferStatus.declined ↦ decline_shipment_dispatch_offer profile_id input
    | _ ↦
        throw
          (bad_request "Only ACCEPTED or DECLINED statuses are allowed for shipper dispatch review")
  ]
