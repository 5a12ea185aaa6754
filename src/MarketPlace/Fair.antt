-- ===== src/MarketPlace/Fair.antt =====
-- What the bids and the awards of market-place.service.ts promise together, and the writes that keep
-- it.
use oyana_backend.Base.{
  String, Bool, true, false, ◌||◌, ◌≡◌, refl, sym, ap, ◌∙◌, some, List, [], ◌∷◌, if◌then◌else◌,
  arith, Bool-cases, inl, inr, ◌==◌, eq_iff,
}
use oyana_backend.Base.Table.{find_first, update_where, exists, All, All-map, exists-or}
use oyana_backend.Base.Unique.{
  IsUnique, update_where-IsUnique, IsUnique-found, exists-key_update, found-exists,
}
use oyana_backend.MarketPlace.Schema.{ShipmentBid, ShipmentBidAward, BidStatus, is_accepted}

abbrev pub bid_id : ShipmentBid → String
bid_id b = b.id

abbrev pub awarded_shipment : ShipmentBidAward → String
awarded_shipment a = a.shipment_id

-- the award is for the bid
abbrev pub wins : ShipmentBid → ShipmentBidAward → Bool
wins b a = a.bid_id == b.id

-- A bid is accepted exactly if there is an award for it, and that award is for the bid's shipment.
abbrev pub IsSettled : List ShipmentBidAward → ShipmentBid → Type 0
IsSettled ws b =
    (is_accepted b.status ≡ exists (wins b) ws)
    × All (λ a. wins b a ≡ true → a.shipment_id ≡ b.shipment_id) ws

-- ids are distinct, a shipment has at most one award, every award is for a bid that is there
pub record IsFair (bs : List ShipmentBid) (ws : List ShipmentBidAward) : Type 0 where
  pub bids_unique : IsUnique bid_id bs
  pub awards_unique : IsUnique awarded_shipment ws
  pub known :
      All (λ (a : ShipmentBidAward). exists (λ (b : ShipmentBid). b.id == a.bid_id) bs ≡ true) ws
  pub settled : All (IsSettled ws) bs

-- no award is for an id that no bid has
unknown-wins :
    (b : ShipmentBid) (bs : List ShipmentBid) (ws : List ShipmentBidAward)
    → exists (λ (c : ShipmentBid). c.id == b.id) bs ≡ false
    → All (λ (a : ShipmentBidAward). exists (λ (c : ShipmentBid). c.id == a.bid_id) bs ≡ true) ws
    → (exists (wins b) ws ≡ false) × All (λ a. wins b a ≡ true → a.shipment_id ≡ b.shipment_id) ws
unknown-wins b bs [] h k = (refl, tt)
unknown-wins b bs (a ∷ ws) h k = elim (Bool-cases (a.bid_id == b.id)) [
  | inl hit ↦
      let same : a.bid_id ≡ b.id = (eq_iff _ _).0 hit in
      let there = k.0 in
      absurd (ground (arith, ap (λ i. exists (λ (c : ShipmentBid). c.id == i) bs) same))
  | inr miss ↦
      let (none_wins, all) = unknown-wins b bs ws h k.1 in
      (rw miss none_wins, (λ hit. absurd (ground arith), all))
]

-- A new bid that is not accepted.
pub IsFair-new_bid :
    (b : ShipmentBid) (bs : List ShipmentBid) (ws : List ShipmentBidAward)
    → IsFair bs ws
    → exists (λ (c : ShipmentBid). c.id == b.id) bs ≡ false
    → is_accepted b.status ≡ false
    → IsFair (b ∷ bs) ws
IsFair-new_bid b bs ws h new open' =
    let (none_wins, all) = unknown-wins b bs ws new h.known in
    record {
      bids_unique = (new, h.bids_unique);
      awards_unique = h.awards_unique;
      known =
          All-map
            (λ a k. elim (Bool-cases (b.id == a.bid_id)) [ inl e ↦ rw e refl | inr e ↦ rw e k ]) ws
            h.known;
      settled = ((open' ∙ sym none_wins, all), h.settled);
    }

-- A bid that is not accepted changes into one that is not.
pub IsFair-update_bid :
    (p : ShipmentBid → Bool) (f : ShipmentBid → ShipmentBid) (bs : List ShipmentBid)
    (ws : List ShipmentBidAward)
    → ((b : ShipmentBid) → (f b).id ≡ b.id)
    → ((b : ShipmentBid) → (f b).shipment_id ≡ b.shipment_id)
    → IsFair bs ws
    → All (λ b. p b ≡ true → (is_accepted b.status ≡ false) × (is_accepted (f b).status ≡ false)) bs
    → IsFair (update_where p f bs) ws
unfolding update_where
IsFair-update_bid p f bs ws same_id same_shipment h closed = record {
  bids_unique = update_where-IsUnique bid_id p f same_id bs h.bids_unique;
  awards_unique = h.awards_unique;
  known = All-map (λ a k. exists-key_update bid_id a.bid_id p f same_id bs ∙ k) ws h.known;
  settled = kept bs h.settled closed;
}
  where
    changed :
        (b : ShipmentBid)
        → IsSettled ws b
        → (is_accepted b.status ≡ false) × (is_accepted (f b).status ≡ false)
        → IsSettled ws (f b)
    changed b s c = rw (same_id b, same_shipment b) ((c.1 ∙ sym c.0) ∙ s.0, s.1)

    kept :
        (cs : List ShipmentBid)
        → All (IsSettled ws) cs
        → All
            (λ b. p b ≡ true → (is_accepted b.status ≡ false) × (is_accepted (f b).status ≡ false))
            cs
        → All (IsSettled ws) (update_where p f cs)
    kept [] s c = tt
    kept (b ∷ cs) s c = elim (Bool-cases (p b)) [
      | inl hit ↦ rw hit (changed b s.0 (c.0 hit), kept cs s.1 c.1)
      | inr miss ↦ rw miss (s.0, kept cs s.1 c.1)
    ]

abbrev pub clashes_with : String → ShipmentBid → ShipmentBidAward → Bool
clashes_with id r a = a.id == id || a.shipment_id == r.shipment_id || a.bid_id == r.id

abbrev pub accepted : ShipmentBid → ShipmentBid
accepted b = record b { status = BidStatus.accepted }

-- no clash: none for the shipment, none for the bid
free :
    (id : String) (r : ShipmentBid) (ws : List ShipmentBidAward)
    → exists (clashes_with id r) ws ≡ false
    → (exists (λ (a : ShipmentBidAward). a.shipment_id == r.shipment_id) ws ≡ false)
      × (exists (wins r) ws ≡ false)
free id r ws h =
    let first =
      exists-or (λ (a : ShipmentBidAward). a.id == id)
        (λ a. a.shipment_id == r.shipment_id || a.bid_id == r.id) ws in
    let second =
      exists-or (λ (a : ShipmentBidAward). a.shipment_id == r.shipment_id) (λ a. a.bid_id == r.id)
        ws in
    (ground arith, ground arith)

-- An award of a bid that was found, and the bid's acceptance.
pub IsFair-award :
    (q : ShipmentBid → Bool) (r : ShipmentBid) (a : ShipmentBidAward) (bs : List ShipmentBid)
    (ws : List ShipmentBidAward)
    → IsFair bs ws
    → find_first q bs ≡ some r
    → a.shipment_id ≡ r.shipment_id
    → a.bid_id ≡ r.id
    → exists (clashes_with a.id r) ws ≡ false
    → IsFair (update_where (λ b. b.id == r.id) accepted bs) (a ∷ ws)
unfolding update_where
IsFair-award q r a bs ws h found for_shipment for_bid new =
    let (no_award, no_win) = free a.id r ws new in
    record {
      bids_unique = update_where-IsUnique bid_id _ accepted (λ b. refl) bs h.bids_unique;
      awards_unique = (rw for_shipment no_award, h.awards_unique);
      known = (
        exists-key_update bid_id a.bid_id (λ b. b.id == r.id) accepted (λ b. refl) bs
            ∙ rw for_bid (found-exists bid_id q r bs found),
        All-map
            (λ w k.
              exists-key_update bid_id w.bid_id (λ b. b.id == r.id) accepted (λ b. refl) bs ∙ k)
            ws h.known,
      );
      settled = all no_win bs (IsUnique-found bid_id q r bs h.bids_unique found) h.settled;
    }
  where
    mine : (b : ShipmentBid) → IsSettled ws b → b ≡ r → IsSettled (a ∷ ws) (accepted b)
    mine b s is_r =
        let same_id : a.bid_id ≡ b.id = for_bid ∙ sym (ap bid_id is_r) in
        let won : (a.bid_id == b.id) ≡ true = (eq_iff _ _).1 same_id in
        (
          rw won refl,
          (λ hit. for_shipment ∙ sym (ap (λ (x : ShipmentBid). x.shipment_id) is_r), s.1),
        )

    other : (b : ShipmentBid) → IsSettled ws b → (b.id == r.id) ≡ false → IsSettled (a ∷ ws) b
    other b s differs =
        let lost : (a.bid_id == b.id) ≡ false =
          rw for_bid (ground (arith, eq_iff r.id b.id, eq_iff b.id r.id)) in
        (rw lost s.0, (λ hit. absurd (ground arith), s.1))

    pick :
        (b : ShipmentBid) (hit : Bool)
        → (hit ≡ true → IsSettled (a ∷ ws) (accepted b))
        → (hit ≡ false → IsSettled (a ∷ ws) b)
        → IsSettled (a ∷ ws) (if hit then accepted b else b)
    pick b true h k = h refl
    pick b false h k = k refl

    all :
        exists (wins r) ws ≡ false
        → (cs : List ShipmentBid) → All (λ b. (b.id == r.id) ≡ true → b ≡ r) cs
        → All (IsSettled ws) cs
        → All (IsSettled (a ∷ ws)) (update_where (λ b. b.id == r.id) accepted cs)
    all no_win [] only s = tt
    all no_win (b ∷ cs) only s = (
      pick b (b.id == r.id) (λ hit. mine b s.0 (only.0 hit)) (λ miss. other b s.0 miss),
      all no_win cs only.1 s.1,
    )

-- A change of one bid that was found, neither from nor to an accepted one.
pub IsFair-change_found :
    (q : ShipmentBid → Bool) (r : ShipmentBid) (f : ShipmentBid → ShipmentBid)
    (bs : List ShipmentBid) (ws : List ShipmentBidAward)
    → IsFair bs ws
    → find_first q bs ≡ some r
    → ((b : ShipmentBid) → (f b).id ≡ b.id)
    → ((b : ShipmentBid) → (f b).shipment_id ≡ b.shipment_id)
    → is_accepted r.status ≡ false
    → is_accepted (f r).status ≡ false
    → IsFair (update_where (λ b. b.id == r.id) f bs) ws
IsFair-change_found q r f bs ws h found same_id same_shipment was becomes =
    IsFair-update_bid (λ b. b.id == r.id) f bs ws same_id same_shipment h
      (All-map
        (λ b only hit.
          let is_r = only hit in
          (
            ap (λ (x : ShipmentBid). is_accepted x.status) is_r ∙ was,
            ap (λ x. is_accepted (f x).status) is_r ∙ becomes,
          ))
        bs (IsUnique-found bid_id q r bs h.bids_unique found))
