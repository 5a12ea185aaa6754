-- ===== src/Dispatch/Route.antt =====
-- The reports of a provider on its way and the broadcast of a shipment in dispatch.service.ts keep
-- what its offers and assignments promise.
use oyana_backend.Base.{
  ℕ, String, Bool, true, false, ◌&&◌, ◌≡◌, refl, Option, none, some, List, [], ◌∷◌, ◌==◌, arith,
}
use oyana_backend.Base.Table.{exists-or, All}
use oyana_backend.Db.{Db, offers, assignments, shipments, batches, events}
use oyana_backend.Shipments.Schema.{Shipment, ShipmentStatus}
use oyana_backend.Dispatch.Schema.{DispatchBatch, DispatchOffer, ShipmentAssignment}
use oyana_backend.Dispatch.Progress.{
  advance, mark_en_route_pickup, confirm_pickup, complete_in_transaction, confirm_dropoff,
}
use oyana_backend.Dispatch.Broadcast.{
  offer_row, publish_sent, send_offer, send_offers, reopen, get_or_open_dispatch_batch,
  record_broadcast, broadcast, broadcast_to, dispatch_found, dispatch_in_transaction, notify_teams,
  announce, dispatch_shipment_if_eligible,
}
use oyana_backend.Dispatch.Exclusive.{IsExclusive-new_offer, IsExclusive-change_assignments}
use oyana_backend.Dispatch.Quiet.{Keeps-notify_shipment_progress}
use oyana_backend.Dispatch.Keeps.{
  IsExclusiveDb, ignores_notices, Keeps-find_shipment,
  Keeps-require_provider_owned_active_assignment,
}
use oyana_backend.Notifications.Quiet.{
  Keeps-notify_customer, Keeps-notify_admins, Keeps-notify_provider_team,
}
use oyana_backend.Act.Keeps.{
  Keeps, Keeps-bind, Keeps-find, Keeps-find_all, Keeps-ask, Keeps-throw_if, Keeps-if, Keeps-option,
  Keeps-pure, Keeps-publish, Keeps-view, Keeps-transaction,
}
use oyana_backend.Act.Writes.{Keeps-create_by, Keeps-update_by}
use oyana_backend.Provider.Reads.{Keeps-require_operational_provider_id}
use oyana_backend.Outside.{Outside, new_id, time_now}

Keeps-advance :
    (allowed : List ShipmentStatus) (next : ShipmentStatus) (refusal id : String)
    → Keeps IsExclusiveDb (advance allowed next refusal id)
unfolding advance
Keeps-advance allowed next refusal id =
    Keeps-bind _ _ (Keeps-find_shipment id)
      λ s. Keeps-bind _ _ (Keeps-throw_if _ _) λ u. Keeps-update_by shipments _ _ λ d h. h

pub same_providers :
    (ws : List ShipmentAssignment) (p : ShipmentAssignment → Bool)
    → All (λ a. p a ≡ true → a.provider_id ≡ a.provider_id) ws
same_providers [] p = tt
same_providers (a ∷ ws) p = (λ hit. refl, same_providers ws p)

Keeps-publish_sent : {P : Db → Type 0} (l : List DispatchOffer) → Keeps P (publish_sent l)
unfolding publish_sent
Keeps-publish_sent [] = Keeps-pure tt
Keeps-publish_sent (o ∷ l) = Keeps-bind _ _ (Keeps-publish _ _) λ u. Keeps-publish_sent l

module _ (out : Outside) where
  pub Keeps-mark_en_route_pickup :
      (id s : String) → Keeps IsExclusiveDb (mark_en_route_pickup out id s)
  unfolding mark_en_route_pickup
  Keeps-mark_en_route_pickup id s =
      Keeps-bind _ _ (Keeps-require_operational_provider_id id) λ provider_id.
        Keeps-bind _ _ (Keeps-require_provider_owned_active_assignment provider_id s) λ a.
          Keeps-bind _ _ (Keeps-advance _ _ _ s) λ shipment.
            Keeps-bind _ _ (Keeps-notify_shipment_progress ignores_notices out _ _ _ _)
              λ u. Keeps-pure _

  pub Keeps-confirm_pickup : (id s : String) → Keeps IsExclusiveDb (confirm_pickup out id s)
  unfolding confirm_pickup
  Keeps-confirm_pickup id s =
      Keeps-bind _ _ (Keeps-require_operational_provider_id id) λ provider_id.
        Keeps-bind _ _ (Keeps-require_provider_owned_active_assignment provider_id s) λ a.
          Keeps-bind _ _ (Keeps-advance _ _ _ s) λ shipment.
            Keeps-bind _ _ (Keeps-notify_shipment_progress ignores_notices out _ _ _ _)
              λ u. Keeps-pure _

  Keeps-complete_in_transaction :
      (a : ShipmentAssignment) (time : ℕ) (s : String)
      → Keeps IsExclusiveDb (complete_in_transaction out a time s)
  unfolding complete_in_transaction
  Keeps-complete_in_transaction a time s = Keeps-bind _ _ (Keeps-find_shipment s) λ shipment.
      Keeps-bind _ _ (Keeps-throw_if _ _) λ u.
        Keeps-bind _ _
          (Keeps-update_by assignments _ _ λ d h.
            IsExclusive-change_assignments _ _ d.offers d.assignments (λ x. refl) (λ x. refl)
              (same_providers d.assignments _) h)
          λ updated. Keeps-update_by shipments _ _ λ d h. h

  pub Keeps-confirm_dropoff : (id s : String) → Keeps IsExclusiveDb (confirm_dropoff out id s)
  unfolding confirm_dropoff time_now
  Keeps-confirm_dropoff id s =
      Keeps-bind _ _ (Keeps-require_operational_provider_id id) λ provider_id.
        Keeps-bind _ _ (Keeps-require_provider_owned_active_assignment provider_id s) λ a.
          Keeps-bind _ _ (Keeps-ask _) λ time.
            Keeps-bind _ _ (Keeps-transaction _ (Keeps-complete_in_transaction a time s))
              λ shipment.
                Keeps-bind _ _ (Keeps-notify_shipment_progress ignores_notices out _ _ _ _)
                  λ u. Keeps-pure _

  Keeps-send_offer :
      (b : DispatchBatch) (s trigger : String) (time : ℕ) (p : String)
      → Keeps IsExclusiveDb (send_offer out b s trigger time p)
  unfolding send_offer new_id
  Keeps-send_offer b s trigger time p = Keeps-bind _ _ (Keeps-ask _) λ id.
      Keeps-bind _ _ (Keeps-find offers _) λ found.
        Keeps-option found _ _
          (Keeps-bind _ _
            (Keeps-create_by offers _ _ λ d new h.
              let id_or =
                exists-or (λ (o : DispatchOffer). o.id == id)
                  (λ o. o.batch_id == b.id && o.provider_id == p) d.offers in
              IsExclusive-new_offer (offer_row id b.id s p trigger time) d.offers d.assignments h
                (ground arith) refl)
            λ o. Keeps-pure tt)
          λ o. Keeps-pure tt

  Keeps-send_offers :
      (b : DispatchBatch) (s trigger : String) (time : ℕ) (ps : List String)
      → Keeps IsExclusiveDb (send_offers out b s trigger time ps)
  unfolding send_offers
  Keeps-send_offers b s trigger time [] = Keeps-pure tt
  Keeps-send_offers b s trigger time (p ∷ ps) =
      Keeps-bind _ _ (Keeps-send_offer b s trigger time p)
        λ u. Keeps-send_offers b s trigger time ps

  Keeps-reopen : (b : DispatchBatch) (time : ℕ) → Keeps IsExclusiveDb (reopen out b time)
  unfolding reopen
  Keeps-reopen b time = Keeps-if _ _ _ (Keeps-pure b) (Keeps-update_by batches _ _ λ d h. h)

  Keeps-get_or_open_dispatch_batch :
      (s : String) (time : ℕ) → Keeps IsExclusiveDb (get_or_open_dispatch_batch out s time)
  unfolding get_or_open_dispatch_batch new_id
  Keeps-get_or_open_dispatch_batch s time = Keeps-bind _ _ (Keeps-find batches _) λ found.
      Keeps-option found _ _
        (Keeps-bind _ _ (Keeps-ask _) λ id. Keeps-create_by batches _ _ λ d new h. h)
        λ b. Keeps-reopen b time

  Keeps-record_broadcast :
      (s trigger : String) (number : ℕ) (b : String)
      → Keeps IsExclusiveDb (record_broadcast out s trigger number b)
  unfolding record_broadcast new_id
  Keeps-record_broadcast s trigger number b = Keeps-bind _ _ (Keeps-find events _) λ found.
      Keeps-option found _ _
        (Keeps-bind _ _ (Keeps-ask _)
          λ id. Keeps-bind _ _ (Keeps-create_by events _ _ λ d new h. h) λ e. Keeps-pure tt)
        λ e. Keeps-pure tt

  Keeps-broadcast :
      (s : Shipment) (trigger : String) (time : ℕ) (l : List String)
      → Keeps IsExclusiveDb (broadcast out s trigger time l)
  unfolding broadcast
  Keeps-broadcast s trigger time l =
      Keeps-bind _ _ (Keeps-get_or_open_dispatch_batch s.id time) λ b.
        Keeps-if _ _ _ (Keeps-pure none) (
          Keeps-bind _ _ (Keeps-send_offers b s.id trigger time l) λ u.
            Keeps-bind _ _ (Keeps-update_by shipments _ _ λ d h. h)
              λ v. Keeps-bind _ _ (Keeps-record_broadcast s.id trigger _ b.id) λ x. Keeps-pure _)

  Keeps-broadcast_to :
      (s : Shipment) (trigger : String) (time : ℕ) (l : List String)
      → Keeps IsExclusiveDb (broadcast_to out s trigger time l)
  Keeps-broadcast_to s trigger time [] = Keeps-pure none
  Keeps-broadcast_to s trigger time (p ∷ l) = Keeps-broadcast s trigger time (p ∷ l)

  Keeps-dispatch_found :
      (trigger : String) (time : ℕ) (s : Option Shipment)
      → Keeps IsExclusiveDb (dispatch_found out trigger time s)
  unfolding dispatch_found time_now
  Keeps-dispatch_found trigger time none = Keeps-pure none
  Keeps-dispatch_found trigger time (some s) = Keeps-bind _ _ (Keeps-view _) λ d.
      Keeps-if _ _ _ (Keeps-bind _ _ (Keeps-ask _) λ later. Keeps-broadcast_to s trigger time _)
        (Keeps-pure none)

  Keeps-dispatch_in_transaction :
      (s trigger : String) → Keeps IsExclusiveDb (dispatch_in_transaction out s trigger)
  unfolding dispatch_in_transaction time_now
  Keeps-dispatch_in_transaction s trigger = Keeps-bind _ _ (Keeps-ask _) λ time.
      Keeps-bind _ _ (Keeps-find shipments _)
        λ found. Keeps-bind _ _ (Keeps-dispatch_found trigger time found) λ sent. Keeps-pure _

  Keeps-notify_teams :
      (code s : String) (l : List String) → Keeps IsExclusiveDb (notify_teams out code s l)
  unfolding notify_teams
  Keeps-notify_teams code s [] = Keeps-pure tt
  Keeps-notify_teams code s (p ∷ l) =
      Keeps-bind _ _ (Keeps-notify_provider_team ignores_notices out _ _)
        λ u. Keeps-notify_teams code s l

  Keeps-announce : (s : Shipment) (l : List String) → Keeps IsExclusiveDb (announce out s l)
  unfolding announce
  Keeps-announce s l = Keeps-bind _ _ (Keeps-notify_customer ignores_notices out _ _) λ u.
      Keeps-bind _ _ (Keeps-notify_admins ignores_notices out _) λ v.
        Keeps-bind _ _ (Keeps-notify_teams _ _ _)
          λ x. Keeps-bind _ _ (Keeps-find_all offers _) λ sent. Keeps-publish_sent sent

  pub Keeps-dispatch_shipment_if_eligible :
      (s trigger : String) → Keeps IsExclusiveDb (dispatch_shipment_if_eligible out s trigger)
  unfolding dispatch_shipment_if_eligible
  Keeps-dispatch_shipment_if_eligible s trigger =
      Keeps-bind _ _ (Keeps-transaction _ (Keeps-dispatch_in_transaction s trigger)) λ answer.
        Keeps-option answer.0 _ _ (Keeps-pure false) λ shipment.
          Keeps-option answer.1 _ _ (Keeps-pure false)
            λ l. Keeps-bind _ _ (Keeps-announce shipment l) λ u. Keeps-pure true
