-- ===== src/MarketPlace/Schema.antt =====
-- Bids and awards: prisma/schemas/marketplace.prisma, with the enum of src/graphql/enums.ts.
use oyana_backend.Base.{ℕ, String, Bool, true, false, Option}
use oyana_backend.Base.Int.{ℤ}

pub data BidStatus : Type 0 where
  active withdrawn rejected accepted : BidStatus

pub record ShipmentBid : Type 0 where
  pub id : String
  pub shipment_id : String
  pub provider_id : String
  pub amount_minor : ℤ
  pub currency : String
  pub message : Option String
  pub status : BidStatus

pub record ShipmentBidAward : Type 0 where
  pub id : String
  pub shipment_id : String
  pub bid_id : String
  pub awarded_by_profile_id : String
  pub awarded_at : ℕ
  pub notes : Option String

-- the enum's `===`
abbrev pub is_active : BidStatus → Bool
is_active BidStatus.active = true
is_active _ = false

abbrev pub is_accepted : BidStatus → Bool
is_accepted BidStatus.accepted = true
is_accepted _ = false

abbrev pub is_withdrawn : BidStatus → Bool
is_withdrawn BidStatus.withdrawn = true
is_withdrawn _ = false

abbrev pub bid_status_text : BidStatus → String
bid_status_text BidStatus.active = "active"
bid_status_text BidStatus.withdrawn = "withdrawn"
bid_status_text BidStatus.rejected = "rejected"
bid_status_text BidStatus.accepted = "accepted"
