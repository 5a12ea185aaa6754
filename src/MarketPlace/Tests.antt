-- ===== src/MarketPlace/Tests.antt =====
-- The market place at concrete inputs: a driver bids, the shipper awards, the driver tries again.
use oyana_backend.Base.{String, ◌≡◌, refl, none, some, List, [], ◌∷◌, map}
use oyana_backend.Base.Int.{pos}
use oyana_backend.Parties.{outside, town}
use oyana_backend.MarketPlace.Schema.{ShipmentBid, ShipmentBidAward, BidStatus}
use oyana_backend.MarketPlace.{CreateShipmentBidDto, AwardShipmentBidDto}
use oyana_backend.MarketPlace.Keeps.{IsFairDb}
use oyana_backend.MarketPlace.Winner.{
  FreightRequest, bid, withdraw, award, serve_one, serve_freight, HasOneWinner,
  serve_freight-one_winner,
}
use oyana_backend.MarketPlace.Award.{IsAwarded, award_shipment_bid-Whole}
use oyana_backend.MarketPlace.Final.{winners, Step, serve_one-Step, serve_freight-final}
use oyana_backend.Base.Table.{find_first, find_last, find_many, update_where}
use oyana_backend.MarketPlace.{
  create_shipment_bid, require_freight_access, require_provider_driver_category, place_bid,
  publish_freight_request_bid_updates, publish_each, award_shipment_bid, award_in_transaction,
  settle_award, assign_bid, withdraw_bid, find_own_bid,
}
use oyana_backend.Provider.Access.{
  require_operational_provider_id, resolve_provider_id_for_profile, require_user_role,
}
use oyana_backend.User.{assert_driver_onboarding_complete}
use oyana_backend.Profile.Onboarding.{is_driver_onboarding_completed, resolve_onboarding_step}
use oyana_backend.Profile.Roles.{resolve_profile_role}
use oyana_backend.Outside.{new_id, time_now}
use oyana_backend.Base.Text.{show_ℕ}
use oyana_backend.Act.Keeps.{Post}
use oyana_backend.Act.{
  World, ◌>>=◌, ask, find, find_oldest, find_all, create, update, update_many, publish, transaction,
}

abbrev offer_of_dan : CreateShipmentBidDto
offer_of_dan = record {
  shipment_id = "s1";
  amount_minor = pos 280000;
  currency = none;
  message = none;
}

abbrev choice : AwardShipmentBidDto
choice = record { shipment_id = "s1"; bid_id = "id0"; notes = none }

abbrev requests : List FreightRequest
requests = bid "dan" offer_of_dan ∷ award "sam" choice ∷ withdraw "dan" "id0" ∷ []

town-IsFair : IsFairDb town.db
town-IsFair = record { bids_unique = tt; awards_unique = tt; known = tt; settled = tt }

serve_freight-one_winner_example :
    IsFairDb (serve_freight outside requests town).db
    × HasOneWinner (serve_freight outside requests town).db.bids
serve_freight-one_winner_example = serve_freight-one_winner outside requests town town-IsFair

-- after the driver's bid
abbrev bidden : World
bidden = serve_freight outside (bid "dan" offer_of_dan ∷ []) town

award_shipment_bid-Whole_example :
    Post
      (λ d. d ≡ bidden.db)
      (IsAwarded choice bidden.db)
      (award_shipment_bid outside "sam" choice bidden).0
      (award_shipment_bid outside "sam" choice bidden).1.db
award_shipment_bid-Whole_example = award_shipment_bid-Whole outside "sam" choice bidden

serve_one-Step_example :
    Step (winners bidden.db) (winners (serve_one outside (award "sam" choice) bidden).db)
serve_one-Step_example = serve_one-Step outside (award "sam" choice) bidden

abbrev won : ShipmentBidAward
won = record {
  id = "w1";
  shipment_id = "s1";
  bid_id = "id0";
  awarded_by_profile_id = "sam";
  awarded_at = 0;
  notes = none;
}

abbrev decided : World
decided = record town { db = record (town.db) { awards = won ∷ [] } }

has_winner : winners decided.db "s1" ≡ some "id0"
unfolding find_first
has_winner = refl

serve_freight-final_example : winners (serve_freight outside requests decided).db "s1" ≡ some "id0"
serve_freight-final_example = serve_freight-final outside requests decided "s1" "id0" has_winner

abbrev outcome : ShipmentBid → String × BidStatus
outcome b = (b.id, b.status)

-- the driver bids, the shipper takes the bid, and the driver cannot withdraw it any more
requests_run :
    map outcome (serve_freight outside requests town).db.bids ≡ ("id0", BidStatus.accepted) ∷ []
unfolding find_first find_last find_many update_where ◌>>=◌ ask find find_oldest find_all create
    update update_many publish transaction create_shipment_bid require_freight_access
    require_operational_provider_id assert_driver_onboarding_complete
    resolve_provider_id_for_profile require_provider_driver_category place_bid new_id time_now
    publish_freight_request_bid_updates publish_each award_shipment_bid require_user_role
    award_in_transaction settle_award assign_bid withdraw_bid find_own_bid
    is_driver_onboarding_completed resolve_onboarding_step resolve_profile_role show_ℕ
requests_run = refl
