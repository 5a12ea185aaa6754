-- ===== src/Dispatch/Respond.antt =====
-- `respondToDispatchOffer` of dispatch.service.ts: a provider declines an offer, counters it or
-- accepts it.
use oyana_backend.Base.{
  ℕ, String, Bool, false, not, ◌&&◌, ◌||◌, Option, none, some, if◌then◌else◌, ⊤, ◌==◌, get_or,
  or_else,
}
use oyana_backend.Base.Int.{ℤ, pos, ltb_ℤ}
use oyana_backend.Base.Text.{to_upper}
use oyana_backend.Db.{providers, shipments, offers, assignments}
use oyana_backend.Shipments.Schema.{Shipment, ShipmentStatus, is_one_of, status_text}
use oyana_backend.Provider.Access.{require_operational_provider_id}
use oyana_backend.Act.{
  Act, pure, throw, bad_request, not_found, conflict, or_throw, throw_if, transaction, find, create,
  update, update_count, ◌>>=◌, ◌>>◌,
}
use oyana_backend.Outside.{Outside, new_id, time_now}
use oyana_backend.Dispatch.Schema.{
  DispatchOffer, ShipmentAssignment, DispatchOfferStatus, ShipmentAssignmentStatus,
  is_offer_accepted,
}
use oyana_backend.Dispatch.Notices.{
  publish_dispatch_offer_updates, notify_declined, notify_countered, notify_accepted,
}
use oyana_backend.Dispatch.{
  UpdateDispatchOfferDto, can_respond_to_offer, conflict_message, is_expired, price_of,
  open_for_counters, open_for_acceptance, is_not_above, trimmed_message, is_own_active,
  taken_by_other, is_available, matches_category, find_shipment, find_provider_offer, close_batch,
  refreshed_offer,
}
use Prim.Native.String

-- the assignment that an accepted offer makes, at the shipment's price
abbrev pub assignment_row : String → DispatchOffer → Option ℤ → Option String → ShipmentAssignment
assignment_row id offer price currency = record {
  id = id;
  shipment_id = offer.shipment_id;
  provider_id = offer.provider_id;
  driver_profile_id = none;
  dispatch_offer_id = some offer.id;
  status = ShipmentAssignmentStatus.active;
  agreed_price_minor = price;
  currency = currency;
  completed_at = none;
  cancelled_at = none;
  cancellation_reason = none;
}

-- the unique columns of an assignment
abbrev pub same_assignment : String → String → String → ShipmentAssignment → Bool
same_assignment id shipment_id offer_id a =
    a.id == id
    || a.shipment_id == shipment_id
    || elim a.dispatch_offer_id [ none ↦ false | some o ↦ o == offer_id ]

abbrev is_own : String → Option ShipmentAssignment → Bool
is_own provider_id none = false
is_own provider_id (some a) = is_own_active provider_id a

-- an offer that this provider had accepted before is the answer again, any other is refused
unfoldable pub repeat_acceptance : String → DispatchOffer → Act DispatchOffer
repeat_acceptance provider_id offer = do
  active ← find assignments (λ a. a.shipment_id == offer.shipment_id)
  throw_if (not (is_offer_accepted offer.status && is_own provider_id active))
      (bad_request "Dispatch offer has already been responded to")
  pure offer

-- the currency of a counter offer: the shipment's, in capitals
abbrev pub counter_currency_of : UpdateDispatchOfferDto → Shipment → String
counter_currency_of input shipment =
    to_upper (get_or input.counter_currency shipment.pricing_currency)

module _ (out : Outside) where
  unfoldable pub decline_dispatch_offer : String → UpdateDispatchOfferDto → Act DispatchOffer
  decline_dispatch_offer provider_id input = do
    offer ← find_provider_offer provider_id input.offer_id
    throw_if (not (can_respond_to_offer offer.status))
        (bad_request "Dispatch offer has already been responded to")
    time ← time_now out
    updated ←
        update offers (λ o. o.id == offer.id)
          (λ o. record o {
            status = DispatchOfferStatus.declined;
            responded_at = some (get_or input.responded_at time);
            provider_eta_minutes = or_else input.provider_eta_minutes o.provider_eta_minutes;
          })
    shipment ← find shipments (λ s. s.id == updated.shipment_id)
    notify_declined out provider_id shipment updated
    publish_dispatch_offer_updates updated.shipment_id (some updated.id)
    pure updated

  -- a counter offer that may be made
  unfoldable pub submit_counter :
      String → UpdateDispatchOfferDto → DispatchOffer → Shipment → ℤ → Act DispatchOffer
  submit_counter provider_id input offer shipment amount = do
    let currency = counter_currency_of input shipment
    throw_if (currency == "") (bad_request "Counter currency is required for a counter offer")
    throw_if
        (not (shipment.pricing_currency == "")
          && not (currency == to_upper shipment.pricing_currency))
        (bad_request "Counter offers must use the shipment pricing currency")
    time ← time_now out
    let responded_at = get_or input.responded_at time
    updated ←
        update offers (λ o. o.id == offer.id)
          (λ o. record o {
            status = DispatchOfferStatus.countered;
            responded_at = some responded_at;
            provider_eta_minutes = or_else input.provider_eta_minutes o.provider_eta_minutes;
            counter_amount_minor = some amount;
            counter_currency = some currency;
            counter_message = or_else (trimmed_message input.counter_message) o.counter_message;
            countered_at = some responded_at;
          })
    notify_countered out provider_id shipment updated amount currency
    publish_dispatch_offer_updates updated.shipment_id (some updated.id)
    pure updated

  unfoldable pub counter_dispatch_offer : String → UpdateDispatchOfferDto → Act DispatchOffer
  counter_dispatch_offer provider_id input = do
    offer ← find_provider_offer provider_id input.offer_id
    throw_if (not (can_respond_to_offer offer.status))
        (bad_request "Dispatch offer has already been responded to")
    time ← time_now out
    throw_if (is_expired offer.expires_at time) (bad_request "Dispatch offer has expired")
    amount ←
        or_throw input.counter_amount_minor
          (bad_request "Counter amount is required when submitting a counter offer")
    throw_if (not (ltb_ℤ (pos 0) amount)) (bad_request "Counter amount must be greater than 0")
    shipment ← find_shipment offer.shipment_id
    throw_if (not (is_one_of open_for_counters shipment.status)) (
        bad_request (
          String.◌++◌ "Cannot counter dispatch offer from shipment status "
            (status_text shipment.status)))
    throw_if (is_not_above amount (price_of shipment))
        (bad_request "Counter amount must be higher than the current shipment price")
    submit_counter provider_id input offer shipment amount

  unfoldable pub assign_offer : Option ShipmentAssignment → DispatchOffer → Shipment → Act ⊤
  assign_offer (some a) offer shipment = pure tt
  assign_offer none offer shipment = do
    id ← new_id out
    create assignments (same_assignment id offer.shipment_id offer.id)
        (assignment_row id offer (price_of shipment) (some shipment.pricing_currency))
    pure tt

  -- The writes of an acceptance; the Boolean tells whether this request made it.
  unfoldable pub settle_acceptance :
      String
      → UpdateDispatchOfferDto
      → ℕ
      → DispatchOffer
      → Shipment
      → Option ShipmentAssignment
      → Act (DispatchOffer × Option Shipment)
  settle_acceptance provider_id input time offer shipment existing = do
    accepted ←
        update_count offers (λ o. o.id == offer.id && can_respond_to_offer o.status)
          (λ o. record o {
            status = DispatchOfferStatus.accepted;
            responded_at = some (get_or input.responded_at time);
            provider_eta_minutes = or_else input.provider_eta_minutes o.provider_eta_minutes;
          })
    if accepted
        then (do
          found ← find offers (λ o. o.id == offer.id)
          updated ← or_throw found (not_found "Dispatch offer no longer exists")
          assign_offer existing offer shipment
          update shipments (λ s. s.id == offer.shipment_id)
              (λ s. record s { status = ShipmentStatus.assigned })
          close_batch offer time
          pure (updated, some shipment))
        else do refreshed ← refreshed_offer offer.id; pure (refreshed, none)

  -- an offer that may be answered
  unfoldable pub accept_pending :
      String
      → UpdateDispatchOfferDto
      → ℕ
      → DispatchOffer
      → Shipment
      → Act (DispatchOffer × Option Shipment)
  accept_pending provider_id input time offer shipment = do
    existing ← find assignments (λ a. a.shipment_id == offer.shipment_id)
    throw_if (taken_by_other provider_id existing) (conflict conflict_message)
    settle_acceptance provider_id input time offer shipment existing

  -- The body of the transaction. The row lock (`FOR UPDATE`) only orders it after others.
  unfoldable pub accept_in_transaction :
      String → UpdateDispatchOfferDto → ℕ → Act (DispatchOffer × Option Shipment)
  accept_in_transaction provider_id input time = do
    offer ← find_provider_offer provider_id input.offer_id
    throw_if (is_expired offer.expires_at time) (bad_request "Dispatch offer has expired")
    provider ← find providers (λ p. p.id == provider_id)
    throw_if (not (is_available provider))
        (conflict "Provider is currently unavailable and cannot accept dispatch offers")
    shipment ← find_shipment offer.shipment_id
    throw_if (not (is_one_of open_for_acceptance shipment.status)) (
        bad_request (
          String.◌++◌ "Cannot accept dispatch offer from shipment status "
            (status_text shipment.status)))
    throw_if (not (matches_category provider shipment))
        (conflict "Driver category no longer matches this dispatch shipment")
    if can_respond_to_offer offer.status
        then accept_pending provider_id input time offer shipment
        else do repeated ← repeat_acceptance provider_id offer; pure (repeated, none)

  abbrev pub tell_accepted : String → DispatchOffer → Option Shipment → Act ⊤
  tell_accepted provider_id offer none = pure tt
  tell_accepted provider_id offer (some shipment) = notify_accepted out provider_id shipment offer

  unfoldable pub accept_dispatch_offer : String → UpdateDispatchOfferDto → Act DispatchOffer
  accept_dispatch_offer provider_id input = do
    time ← time_now out
    answer ← transaction (accept_in_transaction provider_id input time)
    tell_accepted provider_id answer.0 answer.1
    publish_dispatch_offer_updates (answer.0).shipment_id none
    pure answer.0

  unfoldable pub respond_to_dispatch_offer : String → UpdateDispatchOfferDto → Act DispatchOffer
  respond_to_dispatch_offer profile_id input = do
    provider_id ← require_operational_provider_id profile_id
    elim input.status [
      | DispatchOfferStatus.accepted ↦ accept_dispatch_offer provider_id input
      | DispatchOfferStatus.declined ↦ decline_dispatch_offer provider_id input
      | DispatchOfferStatus.countered ↦ counter_dispatch_offer provider_id input
      | _ ↦
          throw (
            bad_request
              "Only ACCEPTED, DECLINED, or COUNTERED statuses are allowed for this action")
    ]
