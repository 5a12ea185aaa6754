-- ===== src/Dispatch/Requests.antt =====
-- The other requests to dispatch.service.ts, of the shipper, of the provider on its way and of the
-- worker, keep what its offers and assignments promise; and what any requests in any order do.
use oyana_backend.Base.{
  ℕ, String, Bool, false, ◌&&◌, ◌≡◌, refl, sym, subst, ap, ◌∙◌, get_or, Option, none, some, List,
  ◌==◌, arith, eq_iff,
}
use oyana_backend.Base.Int.{ℤ}
use oyana_backend.Base.Table.{find_first, update_where-none, All-map, find_first-holds}
use oyana_backend.Base.Unique.{IsUnique-found}
use oyana_backend.Db.{Db, offers, assignments, shipments, providers}
use oyana_backend.Profile.Enums.{UserType}
use oyana_backend.Shipments.Schema.{Shipment}
use oyana_backend.Dispatch.Schema.{
  DispatchOffer, ShipmentAssignment, DispatchOfferStatus, is_offer_accepted, is_offer_countered,
}
use oyana_backend.Dispatch.{RespondToShipmentDispatchOfferDto, taken_by_other, find_shipment}
use oyana_backend.Dispatch.Review.{
  find_reviewed_shipment, find_shipment_offer, reassigned, decline_counter,
  decline_shipment_dispatch_offer, assign_counter, agree, settle_counter, accept_counter,
  review_in_transaction, tell_counter_accepted, accept_shipment_dispatch_offer,
  respond_to_shipment_dispatch_offer,
}
use oyana_backend.Dispatch.Exclusive.{
  IsExclusive, assignment_id, IsExclusive-close_offers, IsExclusive-change_assignments,
  IsExclusive-accept, exists-carries,
}
use oyana_backend.Dispatch.Quiet.{
  Keeps-publish_dispatch_offer_updates, Keeps-notify_counter_declined,
  Keeps-notify_counter_accepted,
}
use oyana_backend.Dispatch.Keeps.{
  IsExclusiveDb, ignores_notices, Keeps-find_shipment, Keeps-refreshed_offer, Keeps-close_batch,
  IsAccepting, IsAssigning, own-carries, create_assignment-Outcome,
}
use oyana_backend.Act.{World, throw, bad_request}
use oyana_backend.Act.Keeps.{
  Keeps, Keeps-bind, Keeps-ask, Keeps-throw_if, Keeps-if, Keeps-pure, Keeps-throw, keeps_rules,
}
use oyana_backend.Act.Writes.{Keeps-update_by}
use oyana_backend.Act.Outcome.{
  Outcome, Outcome-throw_if_bind, Outcome-find_bind, Outcome-or_throw_bind, Outcome-update_bind,
  Outcome-update_count_bind, Outcome-bind, Outcome-if, Outcome-forget, Outcome-find-or_throw,
  Outcome-Keeps, Outcome-pure, Keeps-transaction-Outcome, Anything,
}
use oyana_backend.Provider.Reads.{Keeps-require_user_role}
use oyana_backend.Outside.{Outside, time_now}

module _ {P : Db → Type 0} where
  Keeps-find_reviewed_shipment :
      (id : String) (role : UserType) (s : String) → Keeps P (find_reviewed_shipment id role s)
  unfolding find_reviewed_shipment
  Keeps-find_reviewed_shipment id role s = search (keeps_rules, Keeps-find_shipment)

  Keeps-find_shipment_offer : (o s : String) → Keeps P (find_shipment_offer o s)
  unfolding find_shipment_offer
  Keeps-find_shipment_offer o s = search (keeps_rules)

module _ (out : Outside) where
  Keeps-decline_counter :
      (input : RespondToShipmentDispatchOfferDto) (s : Shipment) (o : DispatchOffer)
      → Keeps IsExclusiveDb (decline_counter out input s o)
  unfolding decline_counter time_now
  Keeps-decline_counter input s o = Keeps-bind _ _ (Keeps-throw_if _ _) λ u.
      Keeps-bind _ _ (Keeps-ask _) λ time.
        Keeps-bind _ _
          (Keeps-update_by offers _ _
            λ d. IsExclusive-close_offers _ _ d.offers d.assignments (λ x. refl) (λ x. refl))
          λ updated.
            Keeps-bind _ _ (Keeps-notify_counter_declined ignores_notices out s updated)
              λ v. Keeps-bind _ _ (Keeps-publish_dispatch_offer_updates _ _) λ x. Keeps-pure updated

  Keeps-decline_shipment_dispatch_offer :
      (id : String) (input : RespondToShipmentDispatchOfferDto)
      → Keeps IsExclusiveDb (decline_shipment_dispatch_offer out id input)
  unfolding decline_shipment_dispatch_offer
  Keeps-decline_shipment_dispatch_offer id input =
      Keeps-bind _ _ (Keeps-require_user_role id _) λ role.
        Keeps-bind _ _ (Keeps-find_reviewed_shipment id role _) λ s.
          Keeps-bind _ _ (Keeps-find_shipment_offer _ _)
            λ o. Keeps-if _ _ _ (Keeps-pure o) (Keeps-decline_counter input s o)

  -- the provider's own assignment takes the agreed terms
  reassigned-Outcome :
      (a : ShipmentAssignment) (r : DispatchOffer) (price : ℤ) (currency : String)
      (p : DispatchOffer → Bool) (f : DispatchOffer → DispatchOffer) (os : List DispatchOffer)
      (w : World)
      → IsAccepting r p f os w.db
      → find_first (λ (x : ShipmentAssignment). x.shipment_id == r.shipment_id) w.db.assignments
        ≡ some a
      → taken_by_other r.provider_id (some a) ≡ false
      → Outcome Anything
          (λ u d. IsAssigning r p f os d)
          (assign_counter out (some a) r price currency)
          w
  unfolding assign_counter
  reassigned-Outcome a r price currency p f os w h found own =
      let ws = w.db.assignments in
      let same =
        All-map (λ x only hit. same_row x (only hit)) ws
          (IsUnique-found assignment_id _ a ws (h.1).ids_unique found) in
      Outcome-update_bind assignments _ _ _ tt λ x hit. Outcome-pure (
        (
          h.0,
          IsExclusive-change_assignments _ (reassigned r price currency) os ws (λ x. refl)
              (λ x. refl) same h.1,
        ),
        exists-carries r _ (reassigned r price currency) ws (λ x. refl) same
            ∙ own-carries r ws a found own,
      )
    where
      same_row : (x : ShipmentAssignment) → x ≡ a → r.provider_id ≡ x.provider_id
      same_row x is_a = ground (
        arith,
        eq_iff a.provider_id r.provider_id,
        ap (λ (y : ShipmentAssignment). y.provider_id) is_a,
      )

  assign_counter-Outcome :
      (existing : Option ShipmentAssignment) (r : DispatchOffer) (price : ℤ) (currency : String)
      (p : DispatchOffer → Bool) (f : DispatchOffer → DispatchOffer) (os : List DispatchOffer)
      (w : World)
      → IsAccepting r p f os w.db
      → find_first (λ (x : ShipmentAssignment). x.shipment_id == r.shipment_id) w.db.assignments
        ≡ existing
      → taken_by_other r.provider_id existing ≡ false
      → Outcome Anything
          (λ u d. IsAssigning r p f os d)
          (assign_counter out existing r price currency)
          w
  unfolding assign_counter
  assign_counter-Outcome (some a) r price currency p f os w h found own =
      reassigned-Outcome a r price currency p f os w h found own
  assign_counter-Outcome none r price currency p f os w h found own =
      create_assignment-Outcome out r p f os _ _ w h

  settle_counter-Outcome :
      (input : RespondToShipmentDispatchOfferDto) (time : ℕ) (r : DispatchOffer) (s : Shipment)
      (existing : Option ShipmentAssignment) (q : DispatchOffer → Bool) (w : World)
      → IsExclusiveDb w.db
      → find_first q w.db.offers ≡ some r
      → find_first (λ (x : ShipmentAssignment). x.shipment_id == r.shipment_id) w.db.assignments
        ≡ existing
      → taken_by_other r.provider_id existing ≡ false
      → Outcome Anything (λ a d. IsExclusiveDb d) (settle_counter out input time r s existing) w
  unfolding settle_counter agree
  settle_counter-Outcome input time r s existing q w h found existed own =
      let p = λ (o : DispatchOffer). is_offer_countered o.status in
      let f = λ (o : DispatchOffer). record o {
        status = DispatchOfferStatus.accepted;
        responded_at = some (get_or input.responded_at time);
      } in
      Outcome-update_count_bind offers (λ o. o.id == r.id && p o) f _
        (Outcome-if
          (λ hit. Outcome-find_bind offers _ _ (
            Outcome-or_throw_bind _ _ _ tt λ updated is_updated.
              Outcome-bind (λ u d. IsExclusiveDb d) _ _
                (Outcome-or_throw_bind _ _ _ tt λ price is_price.
                  Outcome-throw_if_bind _ _ _ tt λ currency.
                    Outcome-bind (λ u d. IsAssigning r p f w.db.offers d) _ _
                      (assign_counter-Outcome existing r price _ p f w.db.offers _ (refl, h) existed
                        own)
                      λ u w' assigned.
                        let there =
                          IsExclusive-accept q p r f w.db.offers w'.db.assignments (assigned.0).1
                            found (λ o. refl) (λ o. refl) (λ o. refl) assigned.1 in
                        Outcome-forget {P = IsExclusiveDb} (
                          Outcome-Keeps
                            (Keeps-bind _ _ (Keeps-update_by shipments _ _ λ d k. k)
                              λ x. Keeps-close_batch r time)
                            (subst (λ os. IsExclusive os w'.db.assignments) (sym (assigned.0).0)
                              there)))
                λ u w'' h''. Outcome-pure h''))
          (λ miss. Outcome-forget {P = IsExclusiveDb} (
            Outcome-Keeps (Keeps-bind _ _ (Keeps-refreshed_offer _) λ x. Keeps-pure _) (
              subst (λ os. IsExclusive os w.db.assignments)
                (sym (update_where-none _ f w.db.offers miss)) h))))

  accept_counter-Outcome :
      (input : RespondToShipmentDispatchOfferDto) (time : ℕ) (r : DispatchOffer) (s : Shipment)
      (q : DispatchOffer → Bool) (w : World)
      → IsExclusiveDb w.db
      → find_first q w.db.offers ≡ some r
      → s.id ≡ r.shipment_id
      → Outcome Anything (λ a d. IsExclusiveDb d) (accept_counter out input time r s) w
  unfolding accept_counter
  accept_counter-Outcome input time r s q w h found same =
      Outcome-throw_if_bind _ _ _ tt λ countered. Outcome-throw_if_bind _ _ _ tt λ open'.
        Outcome-find_bind providers _ _ (
          Outcome-throw_if_bind _ _ _ tt λ available. Outcome-throw_if_bind _ _ _ tt λ category.
            Outcome-find_bind assignments _ _ (
              Outcome-throw_if_bind _ _ _ tt λ own.
                settle_counter-Outcome input time r s _ q w h found
                  (ap
                    (λ k.
                      find_first (λ (x : ShipmentAssignment). x.shipment_id == k) w.db.assignments)
                    (sym same))
                  own))

  find_reviewed_shipment-Outcome :
      (id : String) (role : UserType) (shipment_id : String) (w : World)
      → IsExclusiveDb w.db
      → Outcome Anything
          (λ s d. IsExclusiveDb d × (s.id ≡ shipment_id))
          (find_reviewed_shipment id role shipment_id)
          w
  unfolding find_reviewed_shipment find_shipment
  find_reviewed_shipment-Outcome id role shipment_id w h =
      Outcome-bind _ _ _
        (Outcome-forget
          (Outcome-find-or_throw IsExclusiveDb shipments (λ s. s.id == shipment_id) _ w h))
        λ s w' h'. Outcome-throw_if_bind _ _ _ tt λ mode. Outcome-throw_if_bind _ _ _ tt λ owner.
          Outcome-pure (
            h'.0,
            (eq_iff _ _).0
                (find_first-holds (λ (x : Shipment). x.id == shipment_id) w'.db.shipments s h'.1),
          )

  review_in_transaction-Outcome :
      (id : String) (role : UserType) (input : RespondToShipmentDispatchOfferDto) (time : ℕ)
      (w : World)
      → IsExclusiveDb w.db
      → Outcome Anything (λ a d. IsExclusiveDb d) (review_in_transaction out id role input time) w
  unfolding review_in_transaction find_shipment_offer
  review_in_transaction-Outcome id role input time w h =
      let its =
        λ (o : DispatchOffer). o.id == input.offer_id && o.shipment_id == input.shipment_id in
      Outcome-bind _ _ _ (find_reviewed_shipment-Outcome id role input.shipment_id w h) λ s w' h'.
        Outcome-bind _ _ _
          (Outcome-forget (Outcome-find-or_throw IsExclusiveDb offers its _ w' h'.0))
          λ r w'' h''.
            let holds = find_first-holds its w''.db.offers r h''.1 in
            let is_shipment : r.shipment_id ≡ input.shipment_id =
              ground (arith, eq_iff r.shipment_id input.shipment_id) in
            Outcome-if {b = is_offer_accepted r.status} (λ accepted. Outcome-pure h''.0)
              (λ waiting.
                accept_counter-Outcome input time r s its w'' h''.0 h''.1 (h'.1 ∙ sym is_shipment))

  Keeps-accept_shipment_dispatch_offer :
      (id : String) (input : RespondToShipmentDispatchOfferDto)
      → Keeps IsExclusiveDb (accept_shipment_dispatch_offer out id input)
  unfolding accept_shipment_dispatch_offer time_now
  Keeps-accept_shipment_dispatch_offer id input = Keeps-bind _ _ (Keeps-ask _) λ time.
      Keeps-bind _ _ (Keeps-require_user_role id _) λ role.
        Keeps-bind _ _
          (Keeps-transaction-Outcome λ w h. review_in_transaction-Outcome id role input time w h)
          λ answer.
            Keeps-bind _ _ (tell answer.0 answer.1) λ u.
              Keeps-bind _ _ (Keeps-publish_dispatch_offer_updates _ _) λ v. Keeps-pure answer.0
    where
      tell :
          (o : DispatchOffer) (s : Option Shipment)
          → Keeps IsExclusiveDb (tell_counter_accepted out o s)
      tell o none = Keeps-pure tt
      tell o (some s) = Keeps-notify_counter_accepted ignores_notices out s o

  pub Keeps-respond_to_shipment_dispatch_offer :
      (id : String) (input : RespondToShipmentDispatchOfferDto)
      → Keeps IsExclusiveDb (respond_to_shipment_dispatch_offer out id input)
  unfolding respond_to_shipment_dispatch_offer
  Keeps-respond_to_shipment_dispatch_offer id input = answer input.status
    where
      answer :
          (s : DispatchOfferStatus)
          → Keeps {A = DispatchOffer} IsExclusiveDb (elim s [
            | DispatchOfferStatus.accepted ↦ accept_shipment_dispatch_offer out id input
            | DispatchOfferStatus.declined ↦ decline_shipment_dispatch_offer out id input
            | _ ↦ throw (
                bad_request
                  "Only ACCEPTED or DECLINED statuses are allowed for shipper dispatch review")
          ])
      answer DispatchOfferStatus.accepted = Keeps-accept_shipment_dispatch_offer id input
      answer DispatchOfferStatus.declined = Keeps-decline_shipment_dispatch_offer id input
      answer _ = Keeps-throw _
