-- ===== src/MarketPlace/Award.antt =====
-- What an award of market-place.service.ts does, all of it or nothing.
use oyana_backend.Base.{
  ℕ, String, Bool, true, false, not, ◌&&◌, ◌≡◌, refl, sym, ap, subst, Option, none, some, List, [],
  ◌∷◌, if◌then◌else◌, ◌==◌, is_some, arith, eq_refl, Bool-cases, inl, inr,
}
use oyana_backend.Base.Table.{
  find_first, update_where, exists, All, found-exists_other, find_first-holds, exists-some,
  exists-none,
}
use oyana_backend.Db.{Db, bids, awards, assignments, shipments}
use oyana_backend.Profile.Enums.{UserType}
use oyana_backend.Shipments.Schema.{Shipment, ShipmentStatus}
use oyana_backend.Dispatch.Schema.{ShipmentAssignment}
use oyana_backend.MarketPlace.Schema.{ShipmentBid, ShipmentBidAward, BidStatus, is_active}
use oyana_backend.MarketPlace.{
  AwardShipmentBidDto, award_row, assign_bid, settle_award, award_in_transaction,
  award_shipment_bid, publish_each, publish_freight_request_bid_updates,
}
use oyana_backend.MarketPlace.Fair.{accepted}
use oyana_backend.Act.{World, transaction, ask}
use oyana_backend.Act.Keeps.{Post}
use oyana_backend.Act.Outcome.{
  Outcome, Outcome-throw_if_bind, Outcome-find_bind, Outcome-or_throw_bind, Outcome-update_bind,
  Outcome-create_bind, Outcome-update_many_bind, Outcome-bind, Outcome-option, Outcome-Keeps_bind,
  Outcome-pure, Outcome-ask_bind, Outcome-publish_bind, Outcome-find_all_bind, Outcome-transaction,
  Anything,
}
use oyana_backend.Provider.Reads.{Keeps-require_user_role}
use oyana_backend.Outside.{Outside, new_id, time_now}

abbrev rejected : ShipmentBid → ShipmentBid
rejected b = record b { status = BidStatus.rejected }

abbrev pub assigned : Shipment → Shipment
assigned s = record s { status = ShipmentStatus.assigned }

abbrev pub is_of : String → ShipmentBidAward → Bool
is_of shipment_id a = a.shipment_id == shipment_id

abbrev pub is_for : String → ShipmentAssignment → Bool
is_for shipment_id a = a.shipment_id == shipment_id

-- the bid that is asked for, on that shipment and active
abbrev pub is_open_bid : AwardShipmentBidDto → ShipmentBid → Bool
is_open_bid input b =
    (b.id == input.bid_id && b.shipment_id == input.shipment_id) && is_active b.status

abbrev Idle : String → ShipmentBid → Type 0
Idle shipment_id b = (b.shipment_id == shipment_id) ≡ true → is_active b.status ≡ false

-- no bid on the shipment waits any more
abbrev pub NobodyWaits : String → List ShipmentBid → Type 0
NobodyWaits shipment_id bs = All (Idle shipment_id) bs

abbrev loses : String → String → ShipmentBid → Bool
loses shipment_id id b = b.shipment_id == shipment_id && not (b.id == id) && is_active b.status

pub record IsAwarded (input : AwardShipmentBidDto) (before : Db) (a : ShipmentBidAward) (after : Db)
    : Type 0 where
  pub of_bid : a.bid_id ≡ input.bid_id
  pub of_shipment : a.shipment_id ≡ input.shipment_id
  pub was_open : exists (is_open_bid input) before.bids ≡ true
  pub was_free : exists (is_of input.shipment_id) before.awards ≡ false
  pub recorded : after.awards ≡ a ∷ before.awards
  pub nobody_waits : NobodyWaits input.shipment_id after.bids
  pub has_assignment : exists (is_for input.shipment_id) after.assignments ≡ true
  pub is_assigned :
      after.shipments ≡ update_where (λ s. s.id == input.shipment_id) assigned before.shipments

Idle-if :
    (shipment_id id : String) (c : ShipmentBid) (hit : Bool)
    → loses shipment_id id c ≡ hit
    → (is_active c.status ≡ true → (c.id == id) ≡ false)
    → Idle shipment_id (if hit then rejected c else c)
Idle-if shipment_id id c true e other = λ same. refl
Idle-if shipment_id id c false e other = λ same. elim (Bool-cases (is_active c.status)) [
  | inl active ↦ let differs = other active in absurd (ground arith)
  | inr idle ↦ idle
]

Idle-after :
    (shipment_id id : String) (b : ShipmentBid) (hit : Bool)
    → (b.id == id) ≡ hit
    → Idle shipment_id (
        if loses shipment_id id (if hit then accepted b else b)
        then rejected (if hit then accepted b else b)
        else (if hit then accepted b else b))
Idle-after shipment_id id b true e =
    Idle-if shipment_id id (accepted b) _ refl (λ active. absurd (ground arith))
Idle-after shipment_id id b false e = Idle-if shipment_id id b _ refl (λ active. e)

-- after the acceptance of one bid and the rejection of the others
NobodyWaits-after :
    (shipment_id id : String) (bs : List ShipmentBid)
    → NobodyWaits shipment_id
        (update_where (loses shipment_id id) rejected (update_where (λ b. b.id == id) accepted bs))
unfolding update_where
NobodyWaits-after shipment_id id [] = tt
NobodyWaits-after shipment_id id (b ∷ bs) =
    (Idle-after shipment_id id b (b.id == id) refl, NobodyWaits-after shipment_id id bs)

not_some : {A : Type 0} (o : Option A) → is_some o ≡ false → o ≡ none
not_some none e = refl
not_some (some a) e = absurd (ground arith)

-- telling subscribers does not throw
module _ {P : Db → Type 0} (Q : Db → Type 0) where
  publish_each-Outcome :
      (l : List ShipmentBid) (w : World) → Q w.db → Outcome P (λ u d. Q d) (publish_each l) w
  unfolding publish_each
  publish_each-Outcome [] w h = Outcome-pure h
  publish_each-Outcome (b ∷ l) w h =
      Outcome-publish_bind _ _ _ λ w' same. publish_each-Outcome l w' (subst Q (sym same) h)

module _ {P : Db → Type 0} {Q : Db → Type 0} where
  publish_updates-Outcome :
      (id : String) (bid : Option String) (w : World)
      → Q w.db
      → Outcome P (λ u d. Q d) (publish_freight_request_bid_updates id bid) w
  unfolding publish_freight_request_bid_updates
  publish_updates-Outcome id bid w h = Outcome-find_all_bind bids _ _ (publish_each-Outcome Q _ w h)

module _ (out : Outside) where
  -- the tables that an award writes before it looks for an assignment
  abbrev IsSettling : AwardShipmentBidDto → Db → ShipmentBidAward → Db → Type 0
  IsSettling input before a d =
      ((d.awards ≡ a ∷ before.awards) × (d.shipments ≡ before.shipments))
      × NobodyWaits input.shipment_id d.bids

  assign_bid-Outcome :
      (b : ShipmentBid) (input : AwardShipmentBidDto) (before : Db) (a : ShipmentBidAward)
      (w : World)
      → IsSettling input before a w.db
      → Outcome Anything
          (λ u d.
            IsSettling input before a d × (exists (is_for input.shipment_id) d.assignments ≡ true))
          (assign_bid out b input.shipment_id)
          w
  unfolding assign_bid new_id ask
  assign_bid-Outcome b input before a w h =
      Outcome-find_bind assignments (is_for input.shipment_id) _ (
        Outcome-option (find_first (is_for input.shipment_id) w.db.assignments) _ _
          (λ none_yet.
            Outcome-bind (λ id d. IsSettling input before a d) _ _ (record { at = h })
              λ id w' h'.
                Outcome-create_bind assignments _ _ _ tt
                  λ new. Outcome-pure (h', rw (eq_refl input.shipment_id) refl))
          λ x found. Outcome-pure (h, exists-some _ w.db.assignments x found))

  settle_award-Outcome :
      (id : String) (input : AwardShipmentBidDto) (time : ℕ) (b : ShipmentBid) (w : World)
      → exists (is_open_bid input) w.db.bids ≡ true
      → exists (is_of input.shipment_id) w.db.awards ≡ false
      → Outcome Anything (λ a d. IsAwarded input w.db a d) (settle_award out id input time b) w
  unfolding settle_award new_id
  settle_award-Outcome id input time b w was_open was_free = Outcome-ask_bind _ _ λ new.
      Outcome-create_bind awards _ _ _ tt λ no_clash. Outcome-update_bind bids _ _ _ tt λ r hit.
        Outcome-update_many_bind bids _ _ _ (
          Outcome-bind _ _ _
            (assign_bid-Outcome b input w.db (award_row new id input time) _
              ((refl, refl), NobodyWaits-after input.shipment_id b.id w.db.bids))
            λ u w' h. Outcome-update_bind shipments _ _ _ tt λ s found_s. Outcome-pure (record {
              of_bid = refl;
              of_shipment = refl;
              was_open = was_open;
              was_free = was_free;
              recorded = ((h.0).0).0;
              nobody_waits = (h.0).1;
              has_assignment = h.1;
              is_assigned = ap (update_where (λ s. s.id == input.shipment_id) assigned) ((h.0).0).1;
            }))

  award_in_transaction-Outcome :
      (id : String) (role : UserType) (input : AwardShipmentBidDto) (time : ℕ) (w : World)
      → Outcome Anything
          (λ a d. IsAwarded input w.db a d)
          (award_in_transaction out id role input time)
          w
  unfolding award_in_transaction
  award_in_transaction-Outcome id role input time w =
      let asked_for =
        λ (b : ShipmentBid). b.id == input.bid_id && b.shipment_id == input.shipment_id in
      Outcome-find_bind shipments _ _ (
        Outcome-or_throw_bind _ _ _ tt λ s is_s. Outcome-throw_if_bind _ _ _ tt λ owner.
          Outcome-throw_if_bind _ _ _ tt λ mode. Outcome-find_bind bids asked_for _ (
            Outcome-or_throw_bind _ _ _ tt λ b is_b. Outcome-throw_if_bind _ _ _ tt λ active.
              Outcome-find_bind awards (is_of input.shipment_id) _ (
                Outcome-throw_if_bind _ _ _ tt λ first.
                  let holds = find_first-holds asked_for w.db.bids b is_b in
                  settle_award-Outcome id input time b w
                    (found-exists_other asked_for (is_open_bid input) w.db.bids b is_b
                      (ground arith))
                    (exists-none (is_of input.shipment_id) w.db.awards (not_some _ first)))))

  -- An award either throws and leaves the database as it was, or the bid was on the shipment and active
  -- and the shipment had no award; then its award is recorded, no bid on the shipment waits any more,
  -- the shipment has an assignment, and it is ASSIGNED whatever status it had.
  pub award_shipment_bid-Whole :
      (id : String) (input : AwardShipmentBidDto) (w : World)
      → Post
          (λ d. d ≡ w.db)
          (IsAwarded input w.db)
          (award_shipment_bid out id input w).0
          (award_shipment_bid out id input w).1.db
  unfolding award_shipment_bid time_now
  award_shipment_bid-Whole id input w =
      (Outcome-ask_bind _ _ λ time.
        Outcome-Keeps_bind _ _ (Keeps-require_user_role id _) refl λ role w' same.
          Outcome-bind (λ a d. IsAwarded input w.db a d) _ _
            (subst
              (λ b.
                Outcome (λ d. d ≡ b) (λ a d. IsAwarded input b a d)
                  (transaction (award_in_transaction out id role input time)) w')
              same (Outcome-transaction (award_in_transaction-Outcome id role input time w')))
            λ a w'' h.
              Outcome-bind (λ u d. IsAwarded input w.db a d) _ _ (publish_updates-Outcome _ _ w'' h)
                λ u v h'. Outcome-pure h').at
