-- ===== src/Dispatch/Sweep.antt =====
-- `dispatchDueShipments` of src/dispatch/dispatch.service.ts: the worker offers every shipment that is
-- due. The retries on database errors are left out.
pub mod Batch
use oyana_backend.Base.{
  ℕ, suc, zero, Bool, true, false, not, ◌&&◌, ◌||◌, ◌≡◌, refl, Option, none, some, List, [], ◌∷◌,
  if◌then◌else◌, ◌==◌, leb, arith,
}
use oyana_backend.Base.Table.{find_first, find_many, exists}
use oyana_backend.Db.{Db}
use oyana_backend.Shipments.Schema.{
  Shipment, ShipmentStatus, ShipmentMode, ShipmentScheduleType, eq_mode, eq_status,
}
use oyana_backend.Dispatch.Broadcast.{
  has_assigned_batch, is_shipment_due_for_dispatch, may_dispatch, dispatch_shipment_if_eligible,
}
use oyana_backend.Act.{Act, pure, view, ◌>>=◌}
use oyana_backend.Outside.{Outside, time_now}

abbrev is_instant : ShipmentScheduleType → Bool
is_instant ShipmentScheduleType.instant = true
is_instant ShipmentScheduleType.scheduled = false

-- a scheduled time that is not there or not after the given one
abbrev has_come : Option ℕ → ℕ → Bool
has_come none time = true
has_come (some t) time = leb t time

-- the `where` of `buildDueShipmentWhere`
abbrev pub is_due : ℕ → Db → Shipment → Bool
is_due time d s =
    eq_mode s.mode ShipmentMode.dispatch
    && eq_status s.status ShipmentStatus.created
    && not (exists (λ a. a.shipment_id == s.id) d.assignments)
    && not (has_assigned_batch (find_first (λ b. b.shipment_id == s.id) d.batches))
    && (is_instant s.schedule_type
        || not (is_instant s.schedule_type) && has_come s.scheduled_at time)

-- ascending, with those that have no time last
abbrev pub is_earlier : Option ℕ → Option ℕ → Bool
is_earlier none other = false
is_earlier (some t) none = true
is_earlier (some t) (some u) = not (leb u t)

-- A table lists the newest row first, so that a row comes after those it ties with.
unfoldable pub insert_due : Shipment → List Shipment → List Shipment
insert_due s [] = s ∷ []
insert_due s (t ∷ ts) =
    let rest = insert_due s ts in
    if is_earlier s.scheduled_at t.scheduled_at then s ∷ t ∷ ts else t ∷ rest

unfoldable pub sort_due : List Shipment → List Shipment
sort_due [] = []
sort_due (s ∷ ss) = insert_due s (sort_due ss)

-- `take` of a query
unfoldable pub take_first : ℕ → List Shipment → List Shipment
take_first zero ss = []
take_first (suc n) [] = []
take_first (suc n) (s ∷ ss) = s ∷ take_first n ss

module _ (out : Outside) where
  unfoldable pub due_shipments : ℕ → Db → List Shipment
  due_shipments time d =
      take_first out.dispatch_worker_batch_size (sort_due (find_many (is_due time d) d.shipments))

  -- the loop, with the number of shipments that were offered
  unfoldable pub dispatch_each : List Shipment → Act ℕ
  dispatch_each [] = pure 0
  dispatch_each (s ∷ ss) = do
    dispatched ← dispatch_shipment_if_eligible out s.id "reconcile"
    count ← dispatch_each ss
    pure (if dispatched then suc count else count)

  unfoldable pub dispatch_due_shipments : Act ℕ
  dispatch_due_shipments = do
    time ← time_now out
    due ← view (due_shipments time)
    dispatch_each due

due_at :
    (k : ShipmentScheduleType) (t : Option ℕ) (time : ℕ)
    → (is_instant k || not (is_instant k) && has_come t time)
      ≡ is_shipment_due_for_dispatch k t time
unfolding is_shipment_due_for_dispatch
due_at ShipmentScheduleType.instant t time = refl
due_at ShipmentScheduleType.scheduled none time = refl
due_at ShipmentScheduleType.scheduled (some t) time = refl

-- The `where` of the worker's query holds exactly where the dispatch of one shipment, at the same time
-- and on the same tables, passes its guards.
pub is_due-may_dispatch :
    (time : ℕ) (d : Db) (s : Shipment) → is_due time d s ≡ may_dispatch time s d
is_due-may_dispatch time d s = let at = due_at s.schedule_type s.scheduled_at time in ground arith
