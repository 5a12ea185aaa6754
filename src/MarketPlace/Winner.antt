-- ===== src/MarketPlace/Winner.antt =====
-- At most one bid on a shipment is accepted, whatever is requested of market-place.service.ts.
use oyana_backend.Base.{
  String, true, ◌≡◌, refl, sym, ap, ◌∙◌, List, [], ◌∷◌, ◌==◌, arith, eq_iff, Bool-cases, inl, inr,
}
use oyana_backend.Base.Table.{exists, All, All-map}
use oyana_backend.Base.Unique.{IsUnique}
use oyana_backend.MarketPlace.Schema.{ShipmentBid, ShipmentBidAward, is_accepted}
use oyana_backend.MarketPlace.{
  CreateShipmentBidDto, UpdateShipmentBidDto, AwardShipmentBidDto, create_shipment_bid,
  update_shipment_bid, withdraw_bid, award_shipment_bid,
}
use oyana_backend.MarketPlace.Fair.{IsFair, wins, awarded_shipment}
use oyana_backend.MarketPlace.Keeps.{
  IsFairDb, Keeps-create_shipment_bid, Keeps-update_shipment_bid, Keeps-withdraw_bid,
}
use oyana_backend.MarketPlace.Awarding.{Keeps-award_shipment_bid}
use oyana_backend.Act.{World}
use oyana_backend.Outside.{Outside}

-- a request of a user, by the profile id of the caller
pub data FreightRequest : Type 0 where
  bid : String → CreateShipmentBidDto → FreightRequest
  change : String → String → UpdateShipmentBidDto → FreightRequest
  withdraw : String → String → FreightRequest
  award : String → AwardShipmentBidDto → FreightRequest

abbrev pub serve_one : Outside → FreightRequest → World → World
serve_one out (bid profile_id input) w = (create_shipment_bid out profile_id input w).1
serve_one out (change profile_id id input) w = (update_shipment_bid profile_id id input w).1
serve_one out (withdraw profile_id id) w = (withdraw_bid profile_id id w).1
serve_one out (award profile_id input) w = (award_shipment_bid out profile_id input w).1

-- one request after the other, the earliest first
abbrev pub serve_freight : Outside → List FreightRequest → World → World
serve_freight out [] w = w
serve_freight out (r ∷ rs) w = serve_freight out rs (serve_one out r w)

serve_one-IsFair :
    (out : Outside) (r : FreightRequest) (w : World)
    → IsFairDb w.db
    → IsFairDb (serve_one out r w).db
serve_one-IsFair out (bid id input) w h = (Keeps-create_shipment_bid out id input).at w h
serve_one-IsFair out (change p id input) w h = (Keeps-update_shipment_bid p id input).at w h
serve_one-IsFair out (withdraw p id) w h = (Keeps-withdraw_bid p id).at w h
serve_one-IsFair out (award id input) w h = (Keeps-award_shipment_bid out id input).at w h

serve_freight-IsFair :
    (out : Outside) (rs : List FreightRequest) (w : World)
    → IsFairDb w.db
    → IsFairDb (serve_freight out rs w).db
serve_freight-IsFair out [] w h = h
serve_freight-IsFair out (r ∷ rs) w h =
    serve_freight-IsFair out rs (serve_one out r w) (serve_one-IsFair out r w h)

abbrev ForShipment : ShipmentBid → ShipmentBidAward → Type 0
ForShipment b a = wins b a ≡ true → a.shipment_id ≡ b.shipment_id

-- the shipment of a bid with an award has an award
won-awarded :
    (b : ShipmentBid) (ws : List ShipmentBidAward)
    → exists (wins b) ws ≡ true
    → All (ForShipment b) ws
    → exists (λ (a : ShipmentBidAward). a.shipment_id == b.shipment_id) ws ≡ true
won-awarded b [] e h = absurd (ground arith)
won-awarded b (a ∷ ws) e h = elim (Bool-cases (a.bid_id == b.id)) [
  | inl hit ↦ rw ((eq_iff a.shipment_id b.shipment_id).1 (h.0 hit)) refl
  | inr miss ↦ ground (arith, won-awarded b ws (rw miss at e) h.1)
]

-- Two bids on one shipment with awards are the same bid.
same_winner :
    (b c : ShipmentBid) (ws : List ShipmentBidAward)
    → IsUnique awarded_shipment ws
    → b.shipment_id ≡ c.shipment_id
    → exists (wins b) ws ≡ true
    → exists (wins c) ws ≡ true
    → All (ForShipment b) ws
    → All (ForShipment c) ws
    → b.id ≡ c.id
same_winner b c [] u s eb ec hb hc = absurd (ground arith)
same_winner b c (a ∷ ws) u s eb ec hb hc = elim (Bool-cases (a.bid_id == b.id)) [
  | inl hit_b ↦ elim (Bool-cases (a.bid_id == c.id)) [
    | inl hit_c ↦ sym ((eq_iff _ _).0 hit_b) ∙ (eq_iff _ _).0 hit_c
    | inr miss_c ↦
        let there = won-awarded c ws (rw miss_c at ec) hc.1 in
        let nowhere = u.0 in
        let same : c.shipment_id ≡ a.shipment_id = sym (hb.0 hit_b ∙ s) in
        absurd
          (ground (arith, ap (λ k. exists (λ (x : ShipmentBidAward). x.shipment_id == k) ws) same))
  ]
  | inr miss_b ↦ elim (Bool-cases (a.bid_id == c.id)) [
    | inl hit_c ↦
        let there = won-awarded b ws (rw miss_b at eb) hb.1 in
        let nowhere = u.0 in
        let same : b.shipment_id ≡ a.shipment_id = s ∙ sym (hc.0 hit_c) in
        absurd
          (ground (arith, ap (λ k. exists (λ (x : ShipmentBidAward). x.shipment_id == k) ws) same))
    | inr miss_c ↦ same_winner b c ws u.1 s (rw miss_b at eb) (rw miss_c at ec) hb.1 hc.1
  ]
]

-- Two accepted bids on one shipment are the same bid.
abbrev pub HasOneWinner : List ShipmentBid → Type 0
HasOneWinner bs =
    All
      (λ (b : ShipmentBid).
        All
          (λ (c : ShipmentBid).
            b.shipment_id ≡ c.shipment_id
            → is_accepted b.status ≡ true
            → is_accepted c.status ≡ true
            → b.id ≡ c.id)
          bs)
      bs

IsFair-one_winner :
    (bs : List ShipmentBid) (ws : List ShipmentBidAward) → IsFair bs ws → HasOneWinner bs
IsFair-one_winner bs ws h =
    All-map
      (λ b hb.
        All-map
          (λ c hc s ab ac.
            same_winner b c ws h.awards_unique s (sym hb.0 ∙ ab) (sym hc.0 ∙ ac) hb.1 hc.1)
          bs h.settled)
      bs h.settled

-- From fair tables, after any freight requests in any order: the ids of bids are distinct, a shipment
-- has at most one award, every award is for a bid that is there and for that bid's shipment, a bid is
-- accepted exactly if there is an award for it, and two accepted bids on one shipment are the same bid.
pub serve_freight-one_winner :
    (out : Outside) (rs : List FreightRequest) (w : World)
    → IsFairDb w.db
    → IsFairDb (serve_freight out rs w).db × HasOneWinner (serve_freight out rs w).db.bids
serve_freight-one_winner out rs w h =
    let fair = serve_freight-IsFair out rs w h in (fair, IsFair-one_winner _ _ fair)
