-- ===== src/Dispatch/Served.antt =====
-- Whatever is requested of dispatch.service.ts, but that an assignment be moved, in any order, two
-- accepted offers of a shipment are one provider's.
use oyana_backend.Base.{String, true, ◌≡◌, List, [], ◌∷◌}
use oyana_backend.Base.Table.{All, All-map}
use oyana_backend.Dispatch.Schema.{DispatchOffer, is_offer_accepted}
use oyana_backend.Dispatch.{UpdateDispatchOfferDto, RespondToShipmentDispatchOfferDto}
use oyana_backend.Dispatch.Respond.{respond_to_dispatch_offer}
use oyana_backend.Dispatch.Review.{respond_to_shipment_dispatch_offer}
use oyana_backend.Dispatch.Progress.{mark_en_route_pickup, confirm_pickup, confirm_dropoff}
use oyana_backend.Dispatch.Broadcast.{dispatch_shipment_if_eligible}
use oyana_backend.Dispatch.Sweep.{dispatch_due_shipments}
use oyana_backend.Dispatch.Offers.{
  CreateDispatchBatchDto, CreateDispatchOfferDto, AssignShipmentDto, create_dispatch_batch,
  send_dispatch_offer, create_shipment_assignment, cancel_shipment_assignment,
}
use oyana_backend.Dispatch.Office.{
  Keeps-dispatch_due_shipments, Keeps-create_dispatch_batch, Keeps-send_dispatch_offer,
  Keeps-create_shipment_assignment, Keeps-cancel_shipment_assignment,
}
use oyana_backend.Dispatch.Exclusive.{same_provider}
use oyana_backend.Dispatch.Keeps.{IsExclusiveDb}
use oyana_backend.Dispatch.Answers.{Keeps-respond_to_dispatch_offer}
use oyana_backend.Dispatch.Requests.{Keeps-respond_to_shipment_dispatch_offer}
use oyana_backend.Dispatch.Route.{
  Keeps-mark_en_route_pickup, Keeps-confirm_pickup, Keeps-confirm_dropoff,
  Keeps-dispatch_shipment_if_eligible,
}
use oyana_backend.Act.{World}
use oyana_backend.Outside.{Outside}

-- A request, by the caller's profile id. A job of the worker has a shipment and a trigger, or sweeps all
-- shipments that are due. The last four are an administrator's.
pub data DispatchRequest : Type 0 where
  broadcast : String → String → DispatchRequest
  sweep : DispatchRequest
  respond : String → UpdateDispatchOfferDto → DispatchRequest
  review : String → RespondToShipmentDispatchOfferDto → DispatchRequest
  leave : String → String → DispatchRequest
  pick_up : String → String → DispatchRequest
  drop_off : String → String → DispatchRequest
  open_batch : CreateDispatchBatchDto → DispatchRequest
  send : CreateDispatchOfferDto → DispatchRequest
  assign : AssignShipmentDto → DispatchRequest
  cancel : String → DispatchRequest

abbrev pub serve_one : Outside → DispatchRequest → World → World
serve_one out (broadcast shipment_id trigger) w =
    (dispatch_shipment_if_eligible out shipment_id trigger w).1
serve_one out (respond profile_id input) w = (respond_to_dispatch_offer out profile_id input w).1
serve_one out (review profile_id input) w =
    (respond_to_shipment_dispatch_offer out profile_id input w).1
serve_one out (leave profile_id shipment_id) w =
    (mark_en_route_pickup out profile_id shipment_id w).1
serve_one out (pick_up profile_id shipment_id) w = (confirm_pickup out profile_id shipment_id w).1
serve_one out (drop_off profile_id shipment_id) w = (confirm_dropoff out profile_id shipment_id w).1
serve_one out sweep w = (dispatch_due_shipments out w).1
serve_one out (open_batch input) w = (create_dispatch_batch out input w).1
serve_one out (send input) w = (send_dispatch_offer out input w).1
serve_one out (assign input) w = (create_shipment_assignment out input w).1
serve_one out (cancel id) w = (cancel_shipment_assignment out id w).1

-- one request after the other, the earliest first
abbrev pub serve_dispatch : Outside → List DispatchRequest → World → World
serve_dispatch out [] w = w
serve_dispatch out (r ∷ rs) w = serve_dispatch out rs (serve_one out r w)

serve_one-IsExclusive :
    (out : Outside) (r : DispatchRequest) (w : World)
    → IsExclusiveDb w.db
    → IsExclusiveDb (serve_one out r w).db
serve_one-IsExclusive out (broadcast s trigger) w h =
    (Keeps-dispatch_shipment_if_eligible out s trigger).at w h
serve_one-IsExclusive out (respond id input) w h =
    (Keeps-respond_to_dispatch_offer out id input).at w h
serve_one-IsExclusive out (review id input) w h =
    (Keeps-respond_to_shipment_dispatch_offer out id input).at w h
serve_one-IsExclusive out (leave id s) w h = (Keeps-mark_en_route_pickup out id s).at w h
serve_one-IsExclusive out (pick_up id s) w h = (Keeps-confirm_pickup out id s).at w h
serve_one-IsExclusive out (drop_off id s) w h = (Keeps-confirm_dropoff out id s).at w h
serve_one-IsExclusive out sweep w h = (Keeps-dispatch_due_shipments out).at w h
serve_one-IsExclusive out (open_batch input) w h = (Keeps-create_dispatch_batch out input).at w h
serve_one-IsExclusive out (send input) w h = (Keeps-send_dispatch_offer out input).at w h
serve_one-IsExclusive out (assign input) w h = (Keeps-create_shipment_assignment out input).at w h
serve_one-IsExclusive out (cancel id) w h = (Keeps-cancel_shipment_assignment out id).at w h

serve_dispatch-IsExclusive :
    (out : Outside) (rs : List DispatchRequest) (w : World)
    → IsExclusiveDb w.db
    → IsExclusiveDb (serve_dispatch out rs w).db
serve_dispatch-IsExclusive out [] w h = h
serve_dispatch-IsExclusive out (r ∷ rs) w h =
    serve_dispatch-IsExclusive out rs (serve_one out r w) (serve_one-IsExclusive out r w h)

-- Two accepted offers of one shipment are offers to the same provider.
abbrev pub HasOneProvider : List DispatchOffer → Type 0
HasOneProvider os =
    All
      (λ (b : DispatchOffer).
        All
          (λ (c : DispatchOffer).
            b.shipment_id ≡ c.shipment_id
            → is_offer_accepted b.status ≡ true
            → is_offer_accepted c.status ≡ true
            → b.provider_id ≡ c.provider_id)
          os)
      os

-- From tables with distinct ids in which a shipment has at most one assignment and an accepted offer's
-- shipment is assigned to its provider, after any requests of drivers, shippers, the worker and
-- administrators in any order, but for the move of an assignment: that still holds, and two accepted
-- offers of one shipment are offers to the same provider.
pub serve_dispatch-one_provider :
    (out : Outside) (rs : List DispatchRequest) (w : World)
    → IsExclusiveDb w.db
    → IsExclusiveDb (serve_dispatch out rs w).db
      × HasOneProvider (serve_dispatch out rs w).db.offers
serve_dispatch-one_provider out rs w h =
    let k = serve_dispatch-IsExclusive out rs w h in
    let os = (serve_dispatch out rs w).db.offers in
    let ws = (serve_dispatch out rs w).db.assignments in
    (
      k,
      All-map
          (λ b hb.
            All-map (λ c hc s ab ac. same_provider b c ws k.assigned_once s (hb ab) (hc ac)) os
              k.backed)
          os k.backed,
    )
