-- ===== src/MarketPlace.antt =====
-- src/market-place/market-place.service.ts: bids of providers on marketplace shipments, and the award
-- of one of them by the shipment's owner.
pub mod Schema
pub mod Fair
pub mod Keeps
pub mod Awarding
pub mod Winner
pub mod Award
pub mod Final
mod Tests
use Prim.Native.String
use oyana_backend.Base.{
  ℕ, String, Bool, true, false, not, ◌&&◌, ◌||◌, Option, none, some, List, [], ◌∷◌, if◌then◌else◌,
  ⊤, ◌==◌, is_some, get_or, or_else,
}
use oyana_backend.Base.Int.{ℤ}
use oyana_backend.Db.{profiles, providers, shipments, bids, awards, assignments}
use oyana_backend.Profile.Enums.{UserType, AppMode}
use oyana_backend.Profile.Roles.{is_approved}
use oyana_backend.Profile.Schema.{Profile, DriverRow, driver_shape}
use oyana_backend.Shipments.Schema.{
  Shipment, ShipmentStatus, ShipmentMode, VehicleCategory, eq_mode, eq_vehicle_category, is_one_of,
  status_text,
}
use oyana_backend.Dispatch.Schema.{ShipmentAssignment, ShipmentAssignmentStatus}
use oyana_backend.Provider.Schema.{Provider}
use oyana_backend.Provider.Access.{require_operational_provider_id, require_user_role, is_admin}
use oyana_backend.Act.{
  Act, pure, bad_request, forbidden, not_found, or_throw, throw_if, transaction, find, find_all,
  create, update, update_many, publish, ◌>>=◌, ◌>>◌,
}
use oyana_backend.Outside.{Outside, new_id, time_now}
use Schema.{
  ShipmentBid, ShipmentBidAward, BidStatus, is_active, is_accepted, is_withdrawn, bid_status_text,
}

pub record CreateShipmentBidDto : Type 0 where
  pub shipment_id : String
  pub amount_minor : ℤ
  pub currency : Option String
  pub message : Option String

pub record UpdateShipmentBidDto : Type 0 where
  pub status : Option BidStatus
  pub amount_minor : Option ℤ
  pub currency : Option String
  pub message : Option String

pub record AwardShipmentBidDto : Type 0 where
  pub shipment_id : String
  pub bid_id : String
  pub notes : Option String

-- `freightAccess`: an approved driver in driver mode whose vehicle may carry freight
abbrev pub may_freight : Profile → Bool
may_freight p = elim p.driver_profile [
  | none ↦ false
  | some d ↦
      is_approved (driver_shape (some d))
      && elim p.active_app_mode [ AppMode.driver ↦ true | AppMode.shipper ↦ false ]
      && d.can_freight
]

unfoldable pub require_freight_access : String → Act ⊤
require_freight_access profile_id = do
  found ← find profiles (λ p. p.id == profile_id)
  throw_if (not (elim found [ none ↦ false | some p ↦ may_freight p ]))
      (forbidden "Only approved van and truck drivers can access freight.")

abbrev pub is_category : Option VehicleCategory → VehicleCategory → Bool
is_category none c = false
is_category (some t) c = eq_vehicle_category t c

unfoldable pub require_provider_driver_category : String → VehicleCategory → Act ⊤
require_provider_driver_category provider_id category = do
  provider ← find providers (λ p. p.id == provider_id && is_category p.driver_type category)
  throw_if (not (is_some provider))
      (forbidden "Driver category does not match this shipment category")

abbrev pub open_for_bids : List ShipmentStatus
open_for_bids = ShipmentStatus.created ∷ ShipmentStatus.broadcasting ∷ []

abbrev pub shipment_missing : String → String
shipment_missing id = String.◌++◌ "Shipment with id " (String.◌++◌ id " not found")

-- the loop over the bids
unfoldable pub publish_each : List ShipmentBid → Act ⊤
publish_each [] = pure tt
publish_each (b ∷ bs) = do
  publish (String.◌++◌ "FREIGHT_REQUEST_BID_UPDATED." b.shipment_id) b.id
  publish_each bs

abbrev pub id_in : Option String → String → Bool
id_in none id = true
id_in (some bid_id) id = id == bid_id

-- of one bid, or of all bids on the shipment
unfoldable pub publish_freight_request_bid_updates : String → Option String → Act ⊤
publish_freight_request_bid_updates shipment_id bid_id = do
  found ← find_all bids (λ b. b.shipment_id == shipment_id && id_in bid_id b.id)
  publish_each found

abbrev pub new_bid : String → String → CreateShipmentBidDto → String → ShipmentBid
new_bid id provider_id input currency = record {
  id = id;
  shipment_id = input.shipment_id;
  provider_id = provider_id;
  amount_minor = input.amount_minor;
  currency = currency;
  message = input.message;
  status = BidStatus.active;
}

-- a bid that was withdrawn or rejected becomes active again
unfoldable pub renew_bid : ShipmentBid → CreateShipmentBidDto → String → Act ShipmentBid
renew_bid existing input currency = do
  throw_if (is_active existing.status) (bad_request "You already have an active bid.")
  throw_if (is_accepted existing.status) (bad_request "Your bid has already been accepted.")
  updated ←
      update bids (λ b. b.id == existing.id)
        (λ b. record b {
          amount_minor = input.amount_minor;
          currency = currency;
          message = or_else input.message b.message;
          status = BidStatus.active;
        })
  publish_freight_request_bid_updates updated.shipment_id (some updated.id)
  pure updated

unfoldable pub find_own_bid : String → String → Act ShipmentBid
find_own_bid provider_id id = do
  found ← find bids (λ b. b.id == id && b.provider_id == provider_id)
  or_throw found (not_found "Bid not found for this provider")

-- only WITHDRAWN may be asked for
abbrev pub is_other_status : Option BidStatus → Bool
is_other_status none = false
is_other_status (some s) = not (is_withdrawn s)

abbrev pub changed_bid : UpdateShipmentBidDto → ShipmentBid → ShipmentBid
changed_bid input b = record b {
  amount_minor = get_or input.amount_minor b.amount_minor;
  currency = get_or input.currency b.currency;
  message = or_else input.message b.message;
  status = get_or input.status b.status;
}

unfoldable pub update_shipment_bid : String → String → UpdateShipmentBidDto → Act ShipmentBid
update_shipment_bid profile_id id input = do
  require_freight_access profile_id
  provider_id ← require_operational_provider_id profile_id
  bid ← find_own_bid provider_id id
  throw_if (not (is_active bid.status)) (
      bad_request
        (String.◌++◌ "Cannot update bid in " (String.◌++◌ (bid_status_text bid.status) " status")))
  throw_if (is_other_status input.status)
      (bad_request "Only WITHDRAWN status is allowed when updating bids")
  updated ← update bids (λ b. b.id == id) (changed_bid input)
  publish_freight_request_bid_updates updated.shipment_id (some updated.id)
  pure updated

unfoldable pub withdraw_bid : String → String → Act ShipmentBid
withdraw_bid profile_id id = do
  require_freight_access profile_id
  provider_id ← require_operational_provider_id profile_id
  bid ← find_own_bid provider_id id
  throw_if (not (is_active bid.status)) (
      bad_request (
        String.◌++◌ "Cannot withdraw bid in " (String.◌++◌ (bid_status_text bid.status) " status")))
  updated ← update bids (λ b. b.id == id) (λ b. record b { status = BidStatus.withdrawn })
  publish_freight_request_bid_updates updated.shipment_id (some updated.id)
  pure updated

abbrev pub award_row : String → String → AwardShipmentBidDto → ℕ → ShipmentBidAward
award_row id profile_id input time = record {
  id = id;
  shipment_id = input.shipment_id;
  bid_id = input.bid_id;
  awarded_by_profile_id = profile_id;
  awarded_at = time;
  notes = input.notes;
}

abbrev pub assignment_of_bid : String → ShipmentBid → String → ShipmentAssignment
assignment_of_bid id bid shipment_id = record {
  id = id;
  shipment_id = shipment_id;
  provider_id = bid.provider_id;
  driver_profile_id = none;
  dispatch_offer_id = none;
  status = ShipmentAssignmentStatus.active;
  agreed_price_minor = some bid.amount_minor;
  currency = some bid.currency;
  completed_at = none;
  cancelled_at = none;
  cancellation_reason = none;
}

module _ (out : Outside) where
  unfoldable pub place_bid : String → CreateShipmentBidDto → String → Act ShipmentBid
  place_bid provider_id input currency = do
    id ← new_id out
    bid ←
        create bids
          (λ b. b.id == id || b.shipment_id == input.shipment_id && b.provider_id == provider_id)
          (new_bid id provider_id input currency)
    publish_freight_request_bid_updates bid.shipment_id (some bid.id)
    pure bid

  unfoldable pub create_shipment_bid : String → CreateShipmentBidDto → Act ShipmentBid
  create_shipment_bid profile_id input = do
    require_freight_access profile_id
    provider_id ← require_operational_provider_id profile_id
    found ← find shipments (λ s. s.id == input.shipment_id)
    shipment ← or_throw found (not_found (shipment_missing input.shipment_id))
    throw_if (not (eq_mode shipment.mode ShipmentMode.marketplace))
        (bad_request "Shipment is not a marketplace request")
    throw_if (not (is_one_of open_for_bids shipment.status)) (
        bad_request (
          String.◌++◌ "Shipment is not open for bids (status: "
            (String.◌++◌ (status_text shipment.status) ")")))
    require_provider_driver_category provider_id shipment.vehicle_category
    existing ← find bids (λ b. b.shipment_id == input.shipment_id && b.provider_id == provider_id)
    let currency = get_or input.currency shipment.pricing_currency
    elim existing [
      | some bid ↦ renew_bid bid input currency
      | none ↦ place_bid provider_id input currency
    ]

  -- unless the shipment is assigned already
  unfoldable pub assign_bid : ShipmentBid → String → Act ⊤
  assign_bid bid shipment_id = do
    existing ← find assignments (λ a. a.shipment_id == shipment_id)
    elim existing [
      | some a ↦ pure tt
      | none ↦ (do
        id ← new_id out
        create assignments (λ a. a.id == id || a.shipment_id == shipment_id)
            (assignment_of_bid id bid shipment_id)
        pure tt)
    ]

  -- the award of an active bid, and what follows from it
  unfoldable pub settle_award :
      String → AwardShipmentBidDto → ℕ → ShipmentBid → Act ShipmentBidAward
  settle_award profile_id input time bid = do
    id ← new_id out
    award ←
        create awards
          (λ a. a.id == id || a.shipment_id == input.shipment_id || a.bid_id == input.bid_id)
          (award_row id profile_id input time)
    update bids (λ b. b.id == bid.id) (λ b. record b { status = BidStatus.accepted })
    update_many bids
        (λ b. b.shipment_id == input.shipment_id && not (b.id == bid.id) && is_active b.status)
        (λ b. record b { status = BidStatus.rejected })
    assign_bid bid input.shipment_id
    update shipments (λ s. s.id == input.shipment_id)
        (λ s. record s { status = ShipmentStatus.assigned })
    pure award

  -- the body of the transaction
  unfoldable pub award_in_transaction :
      String → UserType → AwardShipmentBidDto → ℕ → Act ShipmentBidAward
  award_in_transaction profile_id role input time = do
    found ← find shipments (λ s. s.id == input.shipment_id)
    shipment ← or_throw found (not_found (shipment_missing input.shipment_id))
    throw_if (not (is_admin role) && not (shipment.customer_profile_id == profile_id))
        (forbidden "Only the shipment owner can award bids")
    throw_if (not (eq_mode shipment.mode ShipmentMode.marketplace))
        (bad_request "Shipment is not a marketplace request")
    found_bid ← find bids (λ b. b.id == input.bid_id && b.shipment_id == input.shipment_id)
    bid ← or_throw found_bid (not_found "Bid not found for this shipment")
    throw_if (not (is_active bid.status)) (
        bad_request
          (String.◌++◌ "Bid is already in " (String.◌++◌ (bid_status_text bid.status) " status")))
    existing_award ← find awards (λ a. a.shipment_id == input.shipment_id)
    throw_if (is_some existing_award) (bad_request "This shipment already has an awarded bid")
    settle_award profile_id input time bid

  unfoldable pub award_shipment_bid : String → AwardShipmentBidDto → Act ShipmentBidAward
  award_shipment_bid profile_id input = do
    time ← time_now out
    role ← require_user_role profile_id (UserType.admin ∷ UserType.individual ∷ [])
    award ← transaction (award_in_transaction profile_id role input time)
    publish_freight_request_bid_updates input.shipment_id none
    pure award
