-- ===== src/MarketPlace/Awarding.antt =====
-- The award of market-place.service.ts keeps what its bids and awards promise.
use oyana_backend.Base.{
  ℕ, String, Bool, true, false, not, ◌&&◌, ◌≡◌, refl, sym, some, List, [], ◌∷◌, ◌==◌, arith, eq_iff,
}
use oyana_backend.Base.Table.{find_first, find_first-holds, All}
use oyana_backend.Db.{bids, awards, assignments, shipments}
use oyana_backend.MarketPlace.Schema.{ShipmentBid, BidStatus, is_active, is_accepted}
use oyana_backend.MarketPlace.{
  AwardShipmentBidDto, assign_bid, settle_award, award_in_transaction, award_shipment_bid,
  award_row,
}
use oyana_backend.MarketPlace.Fair.{IsFair-update_bid, IsFair-award}
use oyana_backend.Act.{World, ask}
use oyana_backend.Act.Writes.{Keeps-create_by}
use oyana_backend.Act.Keeps.{Keeps, Keeps-bind, Keeps-find, Keeps-ask, Keeps-option, Keeps-pure}
use oyana_backend.Act.Outcome.{
  Outcome, Outcome-throw_if_bind, Outcome-find_bind, Outcome-or_throw_bind, Outcome-update_bind,
  Outcome-create_bind, Outcome-update_many_bind, Outcome-bind, Outcome-forget, Outcome-Keeps_bind,
  Outcome-pure, Keeps-transaction-Outcome, Anything,
}
use oyana_backend.Provider.Reads.{Keeps-require_user_role}
use oyana_backend.Outside.{Outside, new_id, time_now}
use oyana_backend.MarketPlace.Keeps.{IsFairDb, Keeps-publish_updates, active_open}

-- the other bids that are rejected are active ones
only_active :
    (shipment_id id : String) (bs : List ShipmentBid)
    → All
        (λ b.
          (b.shipment_id == shipment_id && not (b.id == id) && is_active b.status) ≡ true
          → (is_accepted b.status ≡ false) × (is_accepted BidStatus.rejected ≡ false))
        bs
only_active shipment_id id [] = tt
only_active shipment_id id (b ∷ bs) =
    (λ hit. (ground (arith, active_open b.status), refl), only_active shipment_id id bs)

module _ (out : Outside) where
  Keeps-assign_bid : (b : ShipmentBid) (s : String) → Keeps IsFairDb (assign_bid out b s)
  unfolding assign_bid new_id
  Keeps-assign_bid b s = Keeps-bind _ _ (Keeps-find _ _) λ found.
      Keeps-option found _ _
        (Keeps-bind _ _ (Keeps-ask _)
          λ id. Keeps-bind _ _ (Keeps-create_by assignments _ _ (λ d new h. h)) λ a. Keeps-pure tt)
        λ a. Keeps-pure tt

  settle_award-Outcome :
      (id : String) (input : AwardShipmentBidDto) (time : ℕ) (bid : ShipmentBid)
      (q : ShipmentBid → Bool) (w : World)
      → IsFairDb w.db
      → find_first q w.db.bids ≡ some bid
      → bid.id ≡ input.bid_id
      → bid.shipment_id ≡ input.shipment_id
      → Outcome Anything (λ a d. IsFairDb d) (settle_award out id input time bid) w
  unfolding settle_award new_id ask
  settle_award-Outcome id input time bid q w h found is_bid is_shipment =
      Outcome-bind (λ a d. (IsFairDb d) × (find_first q d.bids ≡ some bid)) _ _
        (record { at = (h, found) })
        λ new w' h'. Outcome-create_bind awards _ _ _ tt λ no_clash.
          Outcome-update_bind bids _ _ _ tt λ r hit.
            let award = award_row new id input time in
            let awarded =
              IsFair-award q bid award w'.db.bids w'.db.awards h'.0 h'.1 (sym is_shipment)
                (sym is_bid) (rw (is_bid, is_shipment) no_clash) in
            Outcome-update_many_bind bids _ _ _ (
              Outcome-forget {P = IsFairDb} (
                Outcome-Keeps_bind _ _ (Keeps-assign_bid bid input.shipment_id)
                  (IsFair-update_bid _ _ _ _ (λ b. refl) (λ b. refl) awarded
                    (only_active input.shipment_id bid.id _))
                  λ u w'' h''.
                    Outcome-update_bind shipments _ _ _ h'' λ s found_s. Outcome-pure h''))

  pub Keeps-award_shipment_bid :
      (id : String) (input : AwardShipmentBidDto) → Keeps IsFairDb (award_shipment_bid out id input)
  unfolding award_shipment_bid time_now award_in_transaction
  Keeps-award_shipment_bid id input = Keeps-bind _ _ (Keeps-ask _) λ time.
      Keeps-bind _ _ (Keeps-require_user_role id _) λ role.
        Keeps-bind _ _
          (Keeps-transaction-Outcome λ w h. Outcome-find_bind shipments _ _ (
            Outcome-or_throw_bind _ _ _ tt λ shipment is_shipment.
              Outcome-throw_if_bind _ _ _ tt λ owner. Outcome-throw_if_bind _ _ _ tt λ mode.
                Outcome-find_bind bids _ _ (
                  Outcome-or_throw_bind _ _ _ tt λ bid is_bid.
                    Outcome-throw_if_bind _ _ _ tt λ active. Outcome-find_bind awards _ _ (
                      Outcome-throw_if_bind _ _ _ tt λ none_yet.
                        let holds =
                          find_first-holds
                            (λ (b : ShipmentBid).
                              b.id == input.bid_id && b.shipment_id == input.shipment_id)
                            w.db.bids bid is_bid in
                        settle_award-Outcome id input time bid
                          (λ b. b.id == input.bid_id && b.shipment_id == input.shipment_id) w h
                          is_bid (ground (arith, eq_iff bid.id input.bid_id))
                          (ground (arith, eq_iff bid.shipment_id input.shipment_id))))))
          λ award. Keeps-bind _ _ (Keeps-publish_updates _ _) λ u. Keeps-pure award
