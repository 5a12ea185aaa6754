-- ===== src/Shipments/Over.antt =====
-- A shipment that is over stays over: what updateShipment and cancelShipment of
-- src/shipments/shipments.service.ts refuse.
use oyana_backend.Base.{String, Bool, true, not, ◌≡◌, refl, some, List, ◌==◌, arith, ⊤}
use oyana_backend.Base.Table.{find_first}
use oyana_backend.Profile.Enums.{UserType}
use oyana_backend.Provider.Access.{require_user_role}
use oyana_backend.Shipments.Schema.{Shipment, ShipmentStatus, is_one_of}
use oyana_backend.Shipments.{find_shipment}
use oyana_backend.Shipments.Change.{
  UpdateShipmentDto, CancelShipmentDto, over_statuses, cancellable_statuses, update_shipment,
  cancel_shipment,
}
use oyana_backend.Act.{World, Act, Error, throw_if, find, ◌>>=◌}
use oyana_backend.Act.Reads.{
  Reads, Reads-bind, Reads-find, Reads-or_throw, Reads-throw_if, Reads-pure,
}
use oyana_backend.Outside.{Outside}

Reads-require_user_role :
    (id : String) (preferred : List UserType) (w : World) → Reads (require_user_role id preferred) w
unfolding require_user_role
Reads-require_user_role id preferred w =
    Reads-bind _ _ w (Reads-find _ _ w)
      λ found. Reads-bind _ _ w (Reads-or_throw found _ w) λ p. Reads-pure _ w

module _ {A : Type 0} where
  Reads-found_bind :
      (id : String) (f : Shipment → Act A) (w : World) (s : Shipment)
      → find_first (λ (x : Shipment). x.id == id) w.db.shipments ≡ some s
      → Reads (f s) w
      → Reads (find_shipment id >>= f) w
  unfolding find_shipment find ◌>>=◌
  Reads-found_bind id f w s found h = record { same = rw found h.same }

  Reads-throw_bind :
      (b : Bool) (e : Error) (f : ⊤ → Act A) (w : World) → b ≡ true → Reads (throw_if b e >>= f) w
  unfolding ◌>>=◌
  Reads-throw_bind b e f w h = record { same = rw h refl }

over-not_cancellable :
    (s : ShipmentStatus)
    → is_one_of over_statuses s ≡ true
    → not (is_one_of cancellable_statuses s) ≡ true
over-not_cancellable ShipmentStatus.cancelled e = refl
over-not_cancellable ShipmentStatus.completed e = refl
over-not_cancellable ShipmentStatus.expired e = refl
over-not_cancellable _ e = absurd (ground arith)

-- A shipment that is cancelled, completed or expired can neither be updated nor cancelled, by anybody
-- and whatever the input: both requests leave the world as it was.
pub over-is_final :
    (out : Outside) (viewer : String) (input : UpdateShipmentDto) (cancellation : CancelShipmentDto)
    (w : World) (s : Shipment)
    → find_first (λ (x : Shipment). x.id == cancellation.shipment_id) w.db.shipments ≡ some s
    → is_one_of over_statuses s.status ≡ true
    → ((update_shipment out viewer cancellation.shipment_id input w).1 ≡ w)
      × ((cancel_shipment out viewer cancellation w).1 ≡ w)
unfolding update_shipment cancel_shipment
over-is_final out viewer input cancellation w s found over = (
  (Reads-bind _ _ w (Reads-require_user_role viewer _ w) λ role.
      Reads-found_bind cancellation.shipment_id _ w s found
        (Reads-bind _ _ w (Reads-throw_if _ _ w) λ u. Reads-throw_bind _ _ _ w over)).same,
  (Reads-bind _ _ w (Reads-require_user_role viewer _ w) λ role.
      Reads-found_bind cancellation.shipment_id _ w s found (
        Reads-bind _ _ w (Reads-throw_if _ _ w)
          λ u. Reads-throw_bind _ _ _ w (over-not_cancellable s.status over))).same,
)
