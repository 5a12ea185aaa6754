-- ===== src/Dispatch/Answers.antt =====
-- The answers of drivers to offers in dispatch.service.ts keep what its offers and assignments
-- promise.
use oyana_backend.Base.{
  ℕ, String, Bool, false, ◌&&◌, ◌≡◌, refl, Option, none, some, List, ◌==◌, arith, eq_iff, sym,
  subst, get_or, or_else,
}
use oyana_backend.Base.Int.{ℤ}
use oyana_backend.Base.Table.{find_first, update_where-none, find_first-holds}
use oyana_backend.Db.{Db, offers, assignments, shipments, providers}
use oyana_backend.Shipments.Schema.{Shipment}
use oyana_backend.Dispatch.Schema.{DispatchOffer, ShipmentAssignment, DispatchOfferStatus}
use oyana_backend.Dispatch.{
  UpdateDispatchOfferDto, find_provider_offer, can_respond_to_offer, taken_by_other,
}
use oyana_backend.Dispatch.Respond.{
  decline_dispatch_offer, submit_counter, counter_dispatch_offer, assign_offer, settle_acceptance,
  accept_pending, accept_in_transaction, tell_accepted, accept_dispatch_offer,
  respond_to_dispatch_offer, repeat_acceptance,
}
use oyana_backend.Dispatch.Exclusive.{IsExclusive, IsExclusive-close_offers, IsExclusive-accept}
use oyana_backend.Dispatch.Quiet.{
  Keeps-publish_dispatch_offer_updates, Keeps-notify_declined, Keeps-notify_countered,
  Keeps-notify_accepted,
}
use oyana_backend.Act.{World, pure, throw, bad_request, ◌>>=◌}
use oyana_backend.Act.Keeps.{
  Keeps, Keeps-bind, Keeps-find, Keeps-ask, Keeps-or_throw, Keeps-throw_if, Keeps-pure, Keeps-throw,
  keeps_rules,
}
use oyana_backend.Act.Writes.{Keeps-update_by}
use oyana_backend.Act.Outcome.{
  Outcome, Outcome-throw_if_bind, Outcome-find_bind, Outcome-or_throw_bind,
  Outcome-update_count_bind, Outcome-bind, Outcome-if, Outcome-forget, Outcome-find-or_throw,
  Outcome-Keeps, Outcome-pure, Keeps-transaction-Outcome, Anything,
}
use oyana_backend.Provider.Reads.{Keeps-require_operational_provider_id}
use oyana_backend.Outside.{Outside, time_now}
use oyana_backend.Dispatch.Keeps.{
  IsExclusiveDb, ignores_notices, Keeps-find_shipment, Keeps-find_provider_offer,
  Keeps-refreshed_offer, Keeps-close_batch, IsAccepting, IsAssigning, own-carries,
  create_assignment-Outcome,
}

module _ {P : Db → Type 0} where
  Keeps-repeat_acceptance : (id : String) (o : DispatchOffer) → Keeps P (repeat_acceptance id o)
  unfolding repeat_acceptance
  Keeps-repeat_acceptance id o = search (keeps_rules)

module _ (out : Outside) where
  Keeps-decline_dispatch_offer :
      (id : String) (input : UpdateDispatchOfferDto)
      → Keeps IsExclusiveDb (decline_dispatch_offer out id input)
  unfolding decline_dispatch_offer time_now
  Keeps-decline_dispatch_offer id input = Keeps-bind _ _ (Keeps-find_provider_offer id _) λ offer.
      Keeps-bind _ _ (Keeps-throw_if _ _) λ u. Keeps-bind _ _ (Keeps-ask _) λ time.
        Keeps-bind _ _
          (Keeps-update_by offers _ _
            λ d. IsExclusive-close_offers _ _ d.offers d.assignments (λ x. refl) (λ x. refl))
          λ updated. Keeps-bind _ _ (Keeps-find shipments _) λ shipment.
            Keeps-bind _ _ (Keeps-notify_declined ignores_notices out id shipment updated)
              λ v. Keeps-bind _ _ (Keeps-publish_dispatch_offer_updates _ _) λ x. Keeps-pure updated

  Keeps-submit_counter :
      (id : String) (input : UpdateDispatchOfferDto) (o : DispatchOffer) (s : Shipment) (amount : ℤ)
      → Keeps IsExclusiveDb (submit_counter out id input o s amount)
  unfolding submit_counter time_now
  Keeps-submit_counter id input o s amount = Keeps-bind _ _ (Keeps-throw_if _ _) λ u.
      Keeps-bind _ _ (Keeps-throw_if _ _) λ v. Keeps-bind _ _ (Keeps-ask _) λ time.
        Keeps-bind _ _
          (Keeps-update_by offers _ _
            λ d. IsExclusive-close_offers _ _ d.offers d.assignments (λ x. refl) (λ x. refl))
          λ updated.
            Keeps-bind _ _ (Keeps-notify_countered ignores_notices out id s updated amount _)
              λ x. Keeps-bind _ _ (Keeps-publish_dispatch_offer_updates _ _) λ y. Keeps-pure updated

  Keeps-counter_dispatch_offer :
      (id : String) (input : UpdateDispatchOfferDto)
      → Keeps IsExclusiveDb (counter_dispatch_offer out id input)
  unfolding counter_dispatch_offer time_now
  Keeps-counter_dispatch_offer id input = Keeps-bind _ _ (Keeps-find_provider_offer id _) λ offer.
      Keeps-bind _ _ (Keeps-throw_if _ _) λ u. Keeps-bind _ _ (Keeps-ask _) λ time.
        Keeps-bind _ _ (Keeps-throw_if _ _) λ v. Keeps-bind _ _ (Keeps-or_throw _ _) λ amount.
          Keeps-bind _ _ (Keeps-throw_if _ _) λ x.
            Keeps-bind _ _ (Keeps-find_shipment _) λ shipment.
              Keeps-bind _ _ (Keeps-throw_if _ _) λ y.
                Keeps-bind _ _ (Keeps-throw_if _ _)
                  λ z. Keeps-submit_counter id input offer shipment amount

  assign_offer-Outcome :
      (existing : Option ShipmentAssignment) (r : DispatchOffer) (s : Shipment)
      (p : DispatchOffer → Bool) (f : DispatchOffer → DispatchOffer) (os : List DispatchOffer)
      (w : World)
      → IsAccepting r p f os w.db
      → find_first (λ (x : ShipmentAssignment). x.shipment_id == r.shipment_id) w.db.assignments
        ≡ existing
      → taken_by_other r.provider_id existing ≡ false
      → Outcome Anything (λ u d. IsAssigning r p f os d) (assign_offer out existing r s) w
  unfolding assign_offer
  assign_offer-Outcome (some a) r s p f os w h found own =
      Outcome-pure (h, own-carries r w.db.assignments a found own)
  assign_offer-Outcome none r s p f os w h found own =
      create_assignment-Outcome out r p f os _ _ w h

  settle_acceptance-Outcome :
      (input : UpdateDispatchOfferDto) (time : ℕ) (r : DispatchOffer) (s : Shipment)
      (existing : Option ShipmentAssignment) (q : DispatchOffer → Bool) (w : World)
      → IsExclusiveDb w.db
      → find_first q w.db.offers ≡ some r
      → find_first (λ (x : ShipmentAssignment). x.shipment_id == r.shipment_id) w.db.assignments
        ≡ existing
      → taken_by_other r.provider_id existing ≡ false
      → Outcome Anything
          (λ a d. IsExclusiveDb d)
          (settle_acceptance out r.provider_id input time r s existing)
          w
  unfolding settle_acceptance
  settle_acceptance-Outcome input time r s existing q w h found existed own =
      let p = λ (o : DispatchOffer). can_respond_to_offer o.status in
      let f = λ (o : DispatchOffer). record o {
        status = DispatchOfferStatus.accepted;
        responded_at = some (get_or input.responded_at time);
        provider_eta_minutes = or_else input.provider_eta_minutes o.provider_eta_minutes;
      } in
      Outcome-update_count_bind offers (λ o. o.id == r.id && p o) f _
        (Outcome-if
          (λ hit. Outcome-find_bind offers _ _ (
            Outcome-or_throw_bind _ _ _ tt λ updated is_updated.
              Outcome-bind (λ u d. IsAssigning r p f w.db.offers d) _ _
                (assign_offer-Outcome existing r s p f w.db.offers _ (refl, h) existed own)
                λ u w' assigned.
                  let there =
                    IsExclusive-accept q p r f w.db.offers w'.db.assignments (assigned.0).1 found
                      (λ o. refl) (λ o. refl) (λ o. refl) assigned.1 in
                  Outcome-forget {P = IsExclusiveDb} (
                    Outcome-Keeps
                      (Keeps-bind _ _ (Keeps-update_by shipments _ _ λ d k. k)
                        λ x. Keeps-bind _ _ (Keeps-close_batch r time) λ y. Keeps-pure _)
                      (subst (λ os. IsExclusive os w'.db.assignments) (sym (assigned.0).0) there))))
          (λ miss. Outcome-forget {P = IsExclusiveDb} (
            Outcome-Keeps (Keeps-bind _ _ (Keeps-refreshed_offer _) λ x. Keeps-pure _) (
              subst (λ os. IsExclusive os w.db.assignments)
                (sym (update_where-none _ f w.db.offers miss)) h))))

  accept_pending-Outcome :
      (input : UpdateDispatchOfferDto) (time : ℕ) (r : DispatchOffer) (s : Shipment)
      (q : DispatchOffer → Bool) (w : World)
      → IsExclusiveDb w.db
      → find_first q w.db.offers ≡ some r
      → Outcome Anything
          (λ a d. IsExclusiveDb d)
          (accept_pending out r.provider_id input time r s)
          w
  unfolding accept_pending
  accept_pending-Outcome input time r s q w h found = Outcome-find_bind assignments _ _ (
      Outcome-throw_if_bind _ _ _ tt
        λ own. settle_acceptance-Outcome input time r s _ q w h found refl own)

  accept_in_transaction-Outcome :
      (id : String) (input : UpdateDispatchOfferDto) (time : ℕ) (w : World)
      → IsExclusiveDb w.db
      → Outcome Anything (λ a d. IsExclusiveDb d) (accept_in_transaction out id input time) w
  unfolding accept_in_transaction find_provider_offer
  accept_in_transaction-Outcome id input time w h =
      let own = λ (o : DispatchOffer). o.id == input.offer_id && o.provider_id == id in
      Outcome-bind _ _ _ (Outcome-forget (Outcome-find-or_throw IsExclusiveDb offers own _ w h))
        λ r w' h'.
          let is_own : r.provider_id ≡ id =
            ground (arith, find_first-holds own w'.db.offers r h'.1, eq_iff r.provider_id id) in
          Outcome-throw_if_bind _ _ _ tt λ fresh. Outcome-find_bind providers _ _ (
            Outcome-throw_if_bind _ _ _ tt λ available.
              Outcome-bind (λ s d. IsExclusiveDb d × (find_first own d.offers ≡ some r)) _ _
                (Outcome-forget (
                  Outcome-Keeps {P = λ d. IsExclusiveDb d × (find_first own d.offers ≡ some r)}
                    (Keeps-find_shipment _) h'))
                λ s w'' h''. Outcome-throw_if_bind _ _ _ tt λ open'.
                  Outcome-throw_if_bind _ _ _ tt λ category.
                    Outcome-if {b = can_respond_to_offer r.status}
                      {n = repeat_acceptance id r >>= λ x. pure (x, none)}
                      (λ pending.
                        subst
                          (λ i.
                            Outcome Anything (λ a d. IsExclusiveDb d)
                              (accept_pending out i input time r s) w'')
                          is_own (accept_pending-Outcome input time r s own w'' h''.0 h''.1))
                      (λ answered. Outcome-forget {P = IsExclusiveDb} (
                        Outcome-Keeps
                          (Keeps-bind _ _ (Keeps-repeat_acceptance id r) λ x. Keeps-pure (x, none))
                          h''.0)))

  Keeps-accept_dispatch_offer :
      (id : String) (input : UpdateDispatchOfferDto)
      → Keeps IsExclusiveDb (accept_dispatch_offer out id input)
  unfolding accept_dispatch_offer time_now
  Keeps-accept_dispatch_offer id input = Keeps-bind _ _ (Keeps-ask _) λ time.
      Keeps-bind _ _
        (Keeps-transaction-Outcome λ w h. accept_in_transaction-Outcome id input time w h)
        λ answer.
          Keeps-bind _ _ (tell answer.0 answer.1)
            λ u. Keeps-bind _ _ (Keeps-publish_dispatch_offer_updates _ _) λ v. Keeps-pure answer.0
    where
      tell :
          (o : DispatchOffer) (s : Option Shipment) → Keeps IsExclusiveDb (tell_accepted out id o s)
      tell o none = Keeps-pure tt
      tell o (some s) = Keeps-notify_accepted ignores_notices out id s o

  pub Keeps-respond_to_dispatch_offer :
      (id : String) (input : UpdateDispatchOfferDto)
      → Keeps IsExclusiveDb (respond_to_dispatch_offer out id input)
  unfolding respond_to_dispatch_offer
  Keeps-respond_to_dispatch_offer id input =
      Keeps-bind _ _ (Keeps-require_operational_provider_id id)
        λ provider_id. answer provider_id input.status
    where
      answer :
          (provider_id : String) (s : DispatchOfferStatus)
          → Keeps {A = DispatchOffer} IsExclusiveDb (elim s [
            | DispatchOfferStatus.accepted ↦ accept_dispatch_offer out provider_id input
            | DispatchOfferStatus.declined ↦ decline_dispatch_offer out provider_id input
            | DispatchOfferStatus.countered ↦ counter_dispatch_offer out provider_id input
            | _ ↦ throw (
                bad_request
                  "Only ACCEPTED, DECLINED, or COUNTERED statuses are allowed for this action")
          ])
      answer provider_id DispatchOfferStatus.accepted =
          Keeps-accept_dispatch_offer provider_id input
      answer provider_id DispatchOfferStatus.declined =
          Keeps-decline_dispatch_offer provider_id input
      answer provider_id DispatchOfferStatus.countered =
          Keeps-counter_dispatch_offer provider_id input
      answer provider_id _ = Keeps-throw _
