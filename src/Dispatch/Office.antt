-- ===== src/Dispatch/Office.antt =====
-- The worker's sweep and the administration's calls of dispatch.service.ts keep what its offers and
-- assignments promise; `updateShipmentAssignment`, which may move an assignment to another provider,
-- is not among them.
use oyana_backend.Base.{String, ◌&&◌, ◌||◌, refl, List, [], ◌∷◌, ◌==◌, arith}
use oyana_backend.Base.Table.{exists-or}
use oyana_backend.Db.{offers, assignments, batches}
use oyana_backend.Shipments.Schema.{Shipment}
use oyana_backend.Dispatch.Schema.{DispatchOffer, ShipmentAssignment}
use oyana_backend.Dispatch.Offers.{
  CreateDispatchBatchDto, CreateDispatchOfferDto, AssignShipmentDto, clashes_with,
  create_dispatch_batch, send_dispatch_offer, create_shipment_assignment,
  cancel_shipment_assignment,
}
use oyana_backend.Dispatch.Sweep.{dispatch_each, dispatch_due_shipments}
use oyana_backend.Dispatch.Exclusive.{
  IsExclusive-new_offer, IsExclusive-new_assignment, IsExclusive-change_assignments,
}
use oyana_backend.Dispatch.Keeps.{IsExclusiveDb}
use oyana_backend.Dispatch.Route.{Keeps-dispatch_shipment_if_eligible, same_providers}
use oyana_backend.Act.Keeps.{Keeps, Keeps-bind, Keeps-ask, Keeps-view, Keeps-pure}
use oyana_backend.Act.Writes.{Keeps-create_by, Keeps-update_by}
use oyana_backend.Outside.{Outside, new_id, time_now}

module _ (out : Outside) where
  Keeps-dispatch_each : (ss : List Shipment) → Keeps IsExclusiveDb (dispatch_each out ss)
  unfolding dispatch_each
  Keeps-dispatch_each [] = Keeps-pure 0
  Keeps-dispatch_each (s ∷ ss) =
      Keeps-bind _ _ (Keeps-dispatch_shipment_if_eligible out s.id "reconcile")
        λ dispatched. Keeps-bind _ _ (Keeps-dispatch_each ss) λ count. Keeps-pure _

  pub Keeps-dispatch_due_shipments : Keeps IsExclusiveDb (dispatch_due_shipments out)
  unfolding dispatch_due_shipments time_now
  Keeps-dispatch_due_shipments =
      Keeps-bind _ _ (Keeps-ask _)
        λ time. Keeps-bind _ _ (Keeps-view _) λ due. Keeps-dispatch_each due

  pub Keeps-create_dispatch_batch :
      (input : CreateDispatchBatchDto) → Keeps IsExclusiveDb (create_dispatch_batch out input)
  unfolding create_dispatch_batch new_id time_now
  Keeps-create_dispatch_batch input =
      Keeps-bind _ _ (Keeps-ask _)
        λ time. Keeps-bind _ _ (Keeps-ask _) λ id. Keeps-create_by batches _ _ λ d new h. h

  pub Keeps-send_dispatch_offer :
      (input : CreateDispatchOfferDto) → Keeps IsExclusiveDb (send_dispatch_offer out input)
  unfolding send_dispatch_offer new_id time_now
  Keeps-send_dispatch_offer input = Keeps-bind _ _ (Keeps-ask _) λ time.
      Keeps-bind _ _ (Keeps-ask _) λ id. Keeps-create_by offers _ _ λ d new h.
        let id_or =
          exists-or (λ (o : DispatchOffer). o.id == id)
            (λ o. o.batch_id == input.batch_id && o.provider_id == input.provider_id) d.offers in
        IsExclusive-new_offer _ d.offers d.assignments h (ground arith) refl

  pub Keeps-create_shipment_assignment :
      (input : AssignShipmentDto) → Keeps IsExclusiveDb (create_shipment_assignment out input)
  unfolding create_shipment_assignment new_id
  Keeps-create_shipment_assignment input = Keeps-bind _ _ (Keeps-ask _) λ id.
      Keeps-create_by assignments _ _ λ d new h.
        let id_or =
          exists-or (λ (a : ShipmentAssignment). a.id == id)
            (λ a.
              a.shipment_id == input.shipment_id
              || clashes_with a.dispatch_offer_id input.dispatch_offer_id)
            d.assignments in
        let shipment_or =
          exists-or (λ (a : ShipmentAssignment). a.shipment_id == input.shipment_id)
            (λ a. clashes_with a.dispatch_offer_id input.dispatch_offer_id) d.assignments in
        IsExclusive-new_assignment _ d.offers d.assignments h (ground arith) (ground arith)

  pub Keeps-cancel_shipment_assignment :
      (id : String) → Keeps IsExclusiveDb (cancel_shipment_assignment out id)
  unfolding cancel_shipment_assignment time_now
  Keeps-cancel_shipment_assignment id = Keeps-bind _ _ (Keeps-ask _) λ time.
      Keeps-update_by assignments _ _ λ d h.
        IsExclusive-change_assignments _ _ d.offers d.assignments (λ x. refl) (λ x. refl)
          (same_providers d.assignments _) h
