-- ===== src/MarketPlace/Final.antt =====
-- What market-place.service.ts promises, without its tables: a shipment has no winner or one, and once
-- it has one it keeps it.
use oyana_backend.Base.{
  String, false, ◌≡◌, refl, ap, ◌∙◌, Option, none, some, List, [], ◌∷◌, ◌==◌, arith, eq_iff,
  eq_refl, Bool-cases, inl, inr,
}
use oyana_backend.Base.Table.{find_first, exists}
use oyana_backend.Db.{Db, bids, shipments}
use oyana_backend.MarketPlace.Schema.{ShipmentBid, ShipmentBidAward}
use oyana_backend.MarketPlace.{
  CreateShipmentBidDto, UpdateShipmentBidDto, AwardShipmentBidDto, find_own_bid, renew_bid,
  place_bid, require_provider_driver_category, create_shipment_bid, update_shipment_bid,
  withdraw_bid, award_shipment_bid,
}
use oyana_backend.MarketPlace.Keeps.{Keeps-require_freight_access, Keeps-publish_updates}
use oyana_backend.MarketPlace.Award.{is_of, IsAwarded, award_shipment_bid-Whole}
use oyana_backend.MarketPlace.Winner.{
  FreightRequest, bid, change, withdraw, award, serve_one, serve_freight,
}
use oyana_backend.Act.{World, Result, ok, err}
use oyana_backend.Act.Keeps.{
  Keeps, Keeps-bind, Keeps-find, Keeps-ask, Keeps-or_throw, Keeps-throw_if, Keeps-option,
  Keeps-pure, Post, keeps_rules,
}
use oyana_backend.Act.Writes.{Keeps-create_by, Keeps-update_by}
use oyana_backend.Provider.Reads.{Keeps-require_operational_provider_id}
use oyana_backend.Outside.{Outside, new_id}

-- the awards stay as they are
abbrev HasAwards : List ShipmentBidAward → Db → Type 0
HasAwards ws d = d.awards ≡ ws

module _ (ws : List ShipmentBidAward) where
  Keeps-renew_bid :
      (b : ShipmentBid) (input : CreateShipmentBidDto) (currency : String)
      → Keeps (HasAwards ws) (renew_bid b input currency)
  unfolding renew_bid
  Keeps-renew_bid b input currency = Keeps-bind _ _ (Keeps-throw_if _ _) λ u.
      Keeps-bind _ _ (Keeps-throw_if _ _) λ v.
        Keeps-bind _ _ (Keeps-update_by bids _ _ λ d h. h)
          λ updated. Keeps-bind _ _ (Keeps-publish_updates _ _) λ x. Keeps-pure updated

  Keeps-place_bid :
      (out : Outside) (id : String) (input : CreateShipmentBidDto) (currency : String)
      → Keeps (HasAwards ws) (place_bid out id input currency)
  unfolding place_bid new_id
  Keeps-place_bid out id input currency = Keeps-bind _ _ (Keeps-ask _) λ new.
      Keeps-bind _ _ (Keeps-create_by bids _ _ λ d e h. h)
        λ b. Keeps-bind _ _ (Keeps-publish_updates _ _) λ x. Keeps-pure b

  Keeps-find_own_bid : (p id : String) → Keeps (HasAwards ws) (find_own_bid p id)
  unfolding find_own_bid
  Keeps-find_own_bid p id = search (keeps_rules)

  Keeps-create_shipment_bid :
      (out : Outside) (id : String) (input : CreateShipmentBidDto)
      → Keeps (HasAwards ws) (create_shipment_bid out id input)
  unfolding create_shipment_bid require_provider_driver_category
  Keeps-create_shipment_bid out id input = Keeps-bind _ _ (Keeps-require_freight_access id) λ u.
      Keeps-bind _ _ (Keeps-require_operational_provider_id id) λ provider_id.
        Keeps-bind _ _ (Keeps-find shipments _) λ found. Keeps-bind _ _ (Keeps-or_throw _ _) λ s.
          Keeps-bind _ _ (Keeps-throw_if _ _) λ v. Keeps-bind _ _ (Keeps-throw_if _ _) λ x.
            Keeps-bind _ _ (search (keeps_rules)) λ y.
              Keeps-bind _ _ (Keeps-find bids _) λ existing.
                Keeps-option existing _ _ (Keeps-place_bid out provider_id input _)
                  λ b. Keeps-renew_bid b input _

  Keeps-update_shipment_bid :
      (p id : String) (input : UpdateShipmentBidDto)
      → Keeps (HasAwards ws) (update_shipment_bid p id input)
  unfolding update_shipment_bid
  Keeps-update_shipment_bid p id input = Keeps-bind _ _ (Keeps-require_freight_access p) λ u.
      Keeps-bind _ _ (Keeps-require_operational_provider_id p) λ provider_id.
        Keeps-bind _ _ (Keeps-find_own_bid provider_id id) λ b.
          Keeps-bind _ _ (Keeps-throw_if _ _) λ v. Keeps-bind _ _ (Keeps-throw_if _ _) λ x.
            Keeps-bind _ _ (Keeps-update_by bids _ _ λ d h. h)
              λ updated. Keeps-bind _ _ (Keeps-publish_updates _ _) λ y. Keeps-pure updated

  Keeps-withdraw_bid : (p id : String) → Keeps (HasAwards ws) (withdraw_bid p id)
  unfolding withdraw_bid
  Keeps-withdraw_bid p id = Keeps-bind _ _ (Keeps-require_freight_access p) λ u.
      Keeps-bind _ _ (Keeps-require_operational_provider_id p) λ provider_id.
        Keeps-bind _ _ (Keeps-find_own_bid provider_id id) λ b.
          Keeps-bind _ _ (Keeps-throw_if _ _) λ v.
            Keeps-bind _ _ (Keeps-update_by bids _ _ λ d h. h)
              λ updated. Keeps-bind _ _ (Keeps-publish_updates _ _) λ y. Keeps-pure updated

-- the winning bid of each shipment
abbrev pub Winners : Type 0
Winners = String → Option String

abbrev bid_of : Option ShipmentBidAward → Option String
bid_of none = none
bid_of (some a) = some a.bid_id

-- what the tables say of it
abbrev pub winners : Db → Winners
winners d shipment_id = bid_of (find_first (is_of shipment_id) d.awards)

-- A step of the market: nothing happens, or one shipment that has no winner gets one.
pub data Step : Winners → Winners → Type 0 where
  stays : {f g : Winners} → ((s : String) → g s ≡ f s) → Step f g
  settles :
      {f g : Winners} (shipment_id bid_id : String)
      → f shipment_id ≡ none
      → g shipment_id ≡ some bid_id
      → ((s : String) → (s == shipment_id) ≡ false → g s ≡ f s)
      → Step f g

unawarded :
    (s : String) (ws : List ShipmentBidAward)
    → exists (is_of s) ws ≡ false
    → find_first (is_of s) ws ≡ none
unfolding find_first
unawarded s [] e = refl
unawarded s (a ∷ ws) e = ground (arith, unawarded s ws)

awarded-Step :
    (out : Outside) (input : AwardShipmentBidDto) (before after : Db) (r : Result ShipmentBidAward)
    → Post (λ d. d ≡ before) (IsAwarded input before) r after
    → Step (winners before) (winners after)
unfolding find_first
awarded-Step out input before after (err e) h = stays λ s. ap (λ d. winners d s) h
awarded-Step out input before after (ok a) h =
    settles input.shipment_id a.bid_id
      (ap bid_of (unawarded input.shipment_id before.awards h.was_free))
      (ap (λ l. bid_of (find_first (is_of input.shipment_id) l)) h.recorded
        ∙ rw (h.of_shipment, eq_refl input.shipment_id) refl)
      λ s differs.
        ap (λ l. bid_of (find_first (is_of s) l)) h.recorded
        ∙ rw (h.of_shipment, swapped s differs) refl
  where
    swapped : (s : String) → (s == input.shipment_id) ≡ false → (input.shipment_id == s) ≡ false
    swapped s e = ground (arith, eq_iff s input.shipment_id, eq_iff input.shipment_id s)

kept-Step :
    (before after : Db) → after.awards ≡ before.awards → Step (winners before) (winners after)
kept-Step before after same = stays λ s. ap (λ l. bid_of (find_first (is_of s) l)) same

-- Every freight request, whatever it returns, is a step of the market.
pub serve_one-Step :
    (out : Outside) (r : FreightRequest) (w : World)
    → Step (winners w.db) (winners (serve_one out r w).db)
serve_one-Step out (bid id input) w =
    kept-Step w.db (serve_one out (bid id input) w).db
      ((Keeps-create_shipment_bid w.db.awards out id input).at w refl)
serve_one-Step out (change p id input) w =
    kept-Step w.db (serve_one out (change p id input) w).db
      ((Keeps-update_shipment_bid w.db.awards p id input).at w refl)
serve_one-Step out (withdraw p id) w =
    kept-Step w.db (serve_one out (withdraw p id) w).db
      ((Keeps-withdraw_bid w.db.awards p id).at w refl)
serve_one-Step out (award id input) w =
    awarded-Step out input w.db (serve_one out (award id input) w).db
      (award_shipment_bid out id input w).0 (award_shipment_bid-Whole out id input w)

Step-final :
    (f g : Winners) (shipment_id bid_id : String)
    → Step f g
    → f shipment_id ≡ some bid_id
    → g shipment_id ≡ some bid_id
Step-final f g s b (stays same) h = same s ∙ h
Step-final f g s b (settles t c was becomes others) h = elim (Bool-cases (s == t)) [
  | inl hit ↦ absurd (ground (arith, ap f ((eq_iff s t).0 hit)))
  | inr miss ↦ others s miss ∙ h
]

-- A shipment that has a winner keeps it, whatever freight requests follow.
pub serve_freight-final :
    (out : Outside) (rs : List FreightRequest) (w : World) (shipment_id bid_id : String)
    → winners w.db shipment_id ≡ some bid_id
    → winners (serve_freight out rs w).db shipment_id ≡ some bid_id
serve_freight-final out [] w s b h = h
serve_freight-final out (r ∷ rs) w s b h =
    serve_freight-final out rs (serve_one out r w) s b
      (Step-final _ _ s b (serve_one-Step out r w) h)
