-- ===== src/MarketPlace/Keeps.antt =====
-- The requests of market-place.service.ts but the award keep what its bids and awards promise.
use oyana_backend.Base.{
  String, Bool, true, false, ◌&&◌, ◌≡◌, refl, Option, none, some, List, [], ◌∷◌, subst, ◌==◌, arith,
  eq_iff, get_or,
}
use oyana_backend.Base.Table.{find_first, exists-or, find_first-holds, update_where}
use oyana_backend.Db.{Db, bids, shipments}
use oyana_backend.MarketPlace.Schema.{ShipmentBid, BidStatus, is_active, is_accepted}
use oyana_backend.MarketPlace.{
  CreateShipmentBidDto, UpdateShipmentBidDto, require_freight_access,
  require_provider_driver_category, publish_each, publish_freight_request_bid_updates, renew_bid,
  find_own_bid, changed_bid, update_shipment_bid, withdraw_bid, place_bid, create_shipment_bid,
  is_other_status, new_bid,
}
use oyana_backend.MarketPlace.Fair.{IsFair, IsFair-new_bid, IsFair-change_found}
use oyana_backend.Act.{World, Act, ◌>>=◌}
use oyana_backend.Act.Keeps.{Keeps, Keeps-bind, Keeps-ask, Keeps-publish, keeps_rules}
use oyana_backend.Act.Outcome.{
  Outcome, Outcome-throw_if_bind, Outcome-find_bind, Outcome-or_throw_bind, Outcome-update_bind,
  Outcome-create_bind, Outcome-bind, Outcome-find-or_throw, Outcome-Keeps_bind, Outcome-pure,
  Outcome-option, Keeps-Outcome,
}
use oyana_backend.Provider.Reads.{Keeps-require_operational_provider_id}
use oyana_backend.Outside.{Outside, new_id}

module _ {P : Db → Type 0} where
  pub Keeps-require_freight_access : (id : String) → Keeps P (require_freight_access id)
  unfolding require_freight_access
  Keeps-require_freight_access id = search (keeps_rules)

  pub Keeps-publish_each : (l : List ShipmentBid) → Keeps P (publish_each l)
  unfolding publish_each
  Keeps-publish_each [] = search (keeps_rules)
  Keeps-publish_each (b ∷ l) = Keeps-bind _ _ (Keeps-publish _ _) λ u. Keeps-publish_each l

  pub Keeps-publish_updates :
      (id : String) (bid : Option String) → Keeps P (publish_freight_request_bid_updates id bid)
  unfolding publish_freight_request_bid_updates
  Keeps-publish_updates id bid = search (keeps_rules, Keeps-publish_each)

-- ids are distinct, at most one award a shipment, the awarded bids are the accepted ones
abbrev pub IsFairDb : Db → Type 0
IsFairDb d = IsFair d.bids d.awards

pub active_open : (s : BidStatus) → is_active s ≡ true → is_accepted s ≡ false
active_open BidStatus.active e = refl
active_open BidStatus.withdrawn e = refl
active_open BidStatus.rejected e = refl
active_open BidStatus.accepted e = absurd (ground arith)

-- the end of a method that changes a bid
Outcome-publish_then :
    (id : String) (bid : Option String) {A : Type 0} {m : Act A} {w : World}
    → IsFairDb w.db
    → ((w' : World) → IsFairDb w'.db → Outcome IsFairDb (λ a d. IsFairDb d) m w')
    → Outcome IsFairDb (λ a d. IsFairDb d) (publish_freight_request_bid_updates id bid >>= λ u. m) w
Outcome-publish_then id bid h k =
    Outcome-Keeps_bind _ _ (Keeps-publish_updates id bid) h λ u w'. k w'

renew_bid-Outcome :
    (b : ShipmentBid) (input : CreateShipmentBidDto) (currency : String) (w : World)
    (q : ShipmentBid → Bool)
    → IsFairDb w.db
    → find_first q w.db.bids ≡ some b
    → Outcome IsFairDb (λ a d. IsFairDb d) (renew_bid b input currency) w
unfolding renew_bid
renew_bid-Outcome b input currency w q h found = Outcome-throw_if_bind _ _ _ h λ idle.
    Outcome-throw_if_bind _ _ _ h λ open'. Outcome-update_bind bids _ _ _ h λ r hit.
      Outcome-publish_then _ _
        (IsFair-change_found q b _ w.db.bids w.db.awards h found (λ x. refl) (λ x. refl) open' refl)
        λ w' h'. Outcome-pure h'

place_bid-Outcome :
    (out : Outside) (id : String) (input : CreateShipmentBidDto) (currency : String) (w : World)
    → IsFairDb w.db
    → Outcome IsFairDb (λ a d. IsFairDb d) (place_bid out id input currency) w
unfolding place_bid new_id
place_bid-Outcome out id input currency w h = Outcome-Keeps_bind _ _ (Keeps-ask _) h λ new w' h'.
    Outcome-create_bind bids _ _ _ h' λ no_clash.
      let new_id =
        exists-or (λ (b : ShipmentBid). b.id == new)
          (λ b. b.shipment_id == input.shipment_id && b.provider_id == id) w'.db.bids in
      Outcome-publish_then _ _
        (IsFair-new_bid (new_bid new id input currency) w'.db.bids w'.db.awards h' (ground arith)
          refl)
        λ w'' h''. Outcome-pure h''

pub Keeps-create_shipment_bid :
    (out : Outside) (id : String) (input : CreateShipmentBidDto)
    → Keeps IsFairDb (create_shipment_bid out id input)
unfolding create_shipment_bid require_provider_driver_category
Keeps-create_shipment_bid out id input = Keeps-bind _ _ (Keeps-require_freight_access id) λ u.
    Keeps-bind _ _ (Keeps-require_operational_provider_id id) λ provider_id. Keeps-Outcome λ w h.
      Outcome-find_bind shipments _ _ (
        Outcome-or_throw_bind _ _ _ h λ shipment is_shipment.
          Outcome-throw_if_bind _ _ _ h λ marketplace. Outcome-throw_if_bind _ _ _ h λ open'.
            Outcome-Keeps_bind _ _ (search (keeps_rules)) h λ v w' h'.
              let own = λ (b : ShipmentBid).
                b.shipment_id == input.shipment_id && b.provider_id == provider_id in
              let currency = get_or input.currency shipment.pricing_currency in
              Outcome-find_bind bids own _ (
                Outcome-option (find_first own w'.db.bids)
                  (place_bid out provider_id input currency) (λ bid. renew_bid bid input currency)
                  (λ e. place_bid-Outcome out provider_id input currency w' h')
                  (λ bid found. renew_bid-Outcome bid input currency w' own h' found)))

-- a change of the provider's own active bid
IsFair-own_bid :
    (provider_id id : String) (f : ShipmentBid → ShipmentBid) (w : World) (r : ShipmentBid)
    → IsFairDb w.db
    → find_first (λ b. b.id == id && b.provider_id == provider_id) w.db.bids ≡ some r
    → is_active r.status ≡ true
    → ((b : ShipmentBid) → (f b).id ≡ b.id)
    → ((b : ShipmentBid) → (f b).shipment_id ≡ b.shipment_id)
    → is_accepted (f r).status ≡ false
    → IsFair (update_where (λ b. b.id == id) f w.db.bids) w.db.awards
IsFair-own_bid provider_id id f w r h found active same_id same_shipment becomes =
    let is_id : r.id ≡ id = ground (
      arith,
      find_first-holds (λ (b : ShipmentBid). b.id == id && b.provider_id == provider_id) w.db.bids r
          found,
      eq_iff r.id id,
    ) in
    subst (λ k. IsFair (update_where (λ b. b.id == k) f w.db.bids) w.db.awards) is_id
      (IsFair-change_found _ r f w.db.bids w.db.awards h found same_id same_shipment
        (active_open r.status active) becomes)

-- an update may only ask for WITHDRAWN
asked_open :
    (o : Option BidStatus) (s : BidStatus)
    → is_other_status o ≡ false
    → is_active s ≡ true
    → is_accepted (get_or o s) ≡ false
asked_open none s other active = active_open s active
asked_open (some BidStatus.withdrawn) s other active = refl
asked_open (some BidStatus.active) s other active = refl
asked_open (some BidStatus.rejected) s other active = refl
asked_open (some BidStatus.accepted) s other active = absurd (ground arith)

find_own_bid-Outcome :
    (provider_id id : String) (w : World)
    → IsFairDb w.db
    → Outcome IsFairDb
        (λ r d.
          IsFairDb d
          × (find_first (λ b. b.id == id && b.provider_id == provider_id) d.bids ≡ some r))
        (find_own_bid provider_id id)
        w
unfolding find_own_bid
find_own_bid-Outcome provider_id id w h = Outcome-find-or_throw IsFairDb bids _ _ w h

module _ (profile_id id : String) where
  pub Keeps-update_shipment_bid :
      (input : UpdateShipmentBidDto) → Keeps IsFairDb (update_shipment_bid profile_id id input)
  unfolding update_shipment_bid
  Keeps-update_shipment_bid input = Keeps-bind _ _ (Keeps-require_freight_access profile_id) λ u.
      Keeps-bind _ _ (Keeps-require_operational_provider_id profile_id) λ provider_id.
        Keeps-Outcome λ w h.
          Outcome-bind _ _ _ (find_own_bid-Outcome provider_id id w h) λ r w' own.
            Outcome-throw_if_bind _ _ _ own.0 λ active. Outcome-throw_if_bind _ _ _ own.0 λ asked.
              Outcome-update_bind bids _ _ _ own.0 λ r' hit.
                Outcome-publish_then _ _
                  (IsFair-own_bid provider_id id (changed_bid input) w' r own.0 own.1 (ground arith)
                    (λ b. refl) (λ b. refl) (asked_open input.status r.status asked (ground arith)))
                  λ w'' h''. Outcome-pure h''

  pub Keeps-withdraw_bid : Keeps IsFairDb (withdraw_bid profile_id id)
  unfolding withdraw_bid
  Keeps-withdraw_bid = Keeps-bind _ _ (Keeps-require_freight_access profile_id) λ u.
      Keeps-bind _ _ (Keeps-require_operational_provider_id profile_id) λ provider_id.
        Keeps-Outcome λ w h.
          Outcome-bind _ _ _ (find_own_bid-Outcome provider_id id w h) λ r w' own.
            Outcome-throw_if_bind _ _ _ own.0 λ active.
              Outcome-update_bind bids _ _ _ own.0 λ r' hit.
                Outcome-publish_then _ _
                  (IsFair-own_bid provider_id id (λ b. record b { status = BidStatus.withdrawn }) w'
                    r own.0 own.1 (ground arith) (λ b. refl) (λ b. refl) refl)
                  λ w'' h''. Outcome-pure h''
