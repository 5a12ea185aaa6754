-- ===== src/Dispatch/Eligible.antt =====
-- `findEligibleProviders` of dispatch.service.ts: the providers that a shipment is offered to.
use oyana_backend.Base.{
  ℕ, ◌-◌, String, Bool, true, false, not, ◌&&◌, ◌||◌, Option, none, some, List, [], ◌∷◌, map,
  if◌then◌else◌, ◌==◌, leb, ltb,
}
use oyana_backend.Base.Int.{ℤ, pos, ltb_ℤ, eqb_ℤ}
use oyana_backend.Base.Table.{find_many, find_first}
use oyana_backend.Db.{Db}
use oyana_backend.Profile.Enums.{AppMode}
use oyana_backend.Profile.Roles.{is_approved}
use oyana_backend.Profile.Schema.{Profile, DriverPresence, UserAddress, driver_shape}
use oyana_backend.Shipments.Schema.{Shipment, ShipmentStatus, VehicleCategory, is_one_of}
use oyana_backend.Provider.Schema.{Provider}
use oyana_backend.Provider.Access.{is_text}
use oyana_backend.MarketPlace.{is_category}
use oyana_backend.Dispatch.Schema.{ShipmentAssignment, is_assignment_active}
use oyana_backend.Outside.{Outside}

-- `DEFAULT_DRIVER_HEARTBEAT_STALE_MS`
abbrev pub heartbeat_stale_ms : ℕ
heartbeat_stale_ms = 300000

-- the profile whose driver works for the provider
abbrev pub driver_of : Db → Provider → Option Profile
driver_of d p =
    find_first
      (λ r. elim r.driver_profile [ none ↦ false | some row ↦ is_text row.provider_id p.id ])
      d.profiles

abbrev pub is_fresh : ℕ → DriverPresence → Bool
is_fresh time presence = elim presence.last_heartbeat_at [
  | none ↦ false
  | some at ↦ leb (time - heartbeat_stale_ms) at
]

abbrev pub presence_of : Option Profile → Option DriverPresence
presence_of none = none
presence_of (some p) = elim p.driver_profile [ none ↦ none | some d ↦ d.presence ]

-- the conditions of the query on the driver
unfoldable pub is_live_driver : ℕ → Profile → Bool
is_live_driver time p = elim p.driver_profile [
  | none ↦ false
  | some d ↦
      is_approved (driver_shape (some d))
      && d.can_dispatch
      && elim p.active_app_mode [ AppMode.driver ↦ true | AppMode.shipper ↦ false ]
      && elim d.presence [ none ↦ false | some q ↦ q.is_online && is_fresh time q ]
]

abbrev in_transit : List ShipmentStatus
in_transit =
    ShipmentStatus.en_route_pickup ∷ ShipmentStatus.picked_up ∷ ShipmentStatus.en_route_dropoff ∷ []

abbrev pub shipment_of : Db → ShipmentAssignment → Option Shipment
shipment_of d a = find_first (λ s. s.id == a.shipment_id) d.shipments

abbrev pub is_ongoing : Db → Provider → ShipmentAssignment → Bool
is_ongoing d p a =
    a.provider_id == p.id
    && is_assignment_active a.status
    && elim (shipment_of d a) [ none ↦ false | some s ↦ is_one_of in_transit s.status ]

abbrev pub address_of : Db → String → Option UserAddress
address_of d id = find_first (λ a. a.id == id) d.addresses

-- a coordinate that is there and not zero, as `!lat` tests it
abbrev pub nonzero : Option ℤ → Option ℤ
nonzero none = none
nonzero (some x) = if eqb_ℤ x (pos 0) then none else some x

-- where an ongoing dispatch ends
abbrev pub dropoff_of : Db → ShipmentAssignment → Option UserAddress
dropoff_of d a = elim (shipment_of d a) [ none ↦ none | some s ↦ address_of d s.dropoff_address_id ]

-- higher priority first, then the better rating, then the older account
abbrev pub precedes : Provider → Provider → Bool
precedes a b =
    ltb_ℤ b.priority_score a.priority_score
    || eqb_ℤ a.priority_score b.priority_score && ltb b.rating_avg a.rating_avg

unfoldable pub insert_provider : Provider → List Provider → List Provider
insert_provider p [] = p ∷ []
insert_provider p (x ∷ xs) =
    let rest = insert_provider p xs in if precedes p x then p ∷ x ∷ xs else x ∷ rest

-- The table has the newest first, so the older of two equals is inserted before the newer.
unfoldable pub sort_providers : List Provider → List Provider
sort_providers [] = []
sort_providers (p ∷ ps) = insert_provider p (sort_providers ps)

module _ (out : Outside) where
  -- near enough to the pickup, when its coordinates are known
  abbrev pub is_within_reach : Option ℤ → Option ℤ → ℤ → ℤ → Bool
  is_within_reach (some pickup_lat) (some pickup_lng) lat lng =
      not (out.is_farther_than lat lng pickup_lat pickup_lng out.dispatch_max_radius_km)
  is_within_reach _ _ lat lng = true

  -- the end of the ongoing dispatch lies near the pickup
  abbrev pub is_aligned : Option ℤ → Option ℤ → Option ℤ → Option ℤ → Bool
  is_aligned (some pickup_lat) (some pickup_lng) (some lat) (some lng) =
      not (out.is_farther_than pickup_lat pickup_lng lat lng out.dispatch_route_align_km)
  is_aligned _ _ _ _ = false

  abbrev pub is_on_the_way : Db → Provider → Option ℤ → Option ℤ → Bool
  is_on_the_way d p pickup_lat pickup_lng = elim (find_first (is_ongoing d p) d.assignments) [
    | none ↦ true
    | some a ↦ elim (dropoff_of d a) [
      | none ↦ false
      | some at ↦ is_aligned pickup_lat pickup_lng (nonzero at.lat) (nonzero at.lng)
    ]
  ]

  abbrev is_present : Option DriverPresence → ℕ → Option ℤ → Option ℤ → Bool
  is_present none time pickup_lat pickup_lng = false
  is_present (some q) time pickup_lat pickup_lng = elim q.lat [
    | none ↦ false
    | some lat ↦ elim q.lng [
      | none ↦ false
      | some lng ↦ is_fresh time q && is_within_reach pickup_lat pickup_lng lat lng
    ]
  ]

  unfoldable pub is_eligible : Db → ℕ → VehicleCategory → Option ℤ → Option ℤ → Provider → Bool
  is_eligible d time category pickup_lat pickup_lng p =
      p.is_available
      && is_category p.driver_type category
      && elim (driver_of d p) [ none ↦ false | some r ↦ is_live_driver time r ]
      && is_present (presence_of (driver_of d p)) time pickup_lat pickup_lng
      && is_on_the_way d p pickup_lat pickup_lng

  unfoldable pub find_eligible_providers :
      ℕ → VehicleCategory → Option ℤ → Option ℤ → Db → List String
  find_eligible_providers time category pickup_lat pickup_lng d =
      map (λ p. p.id)
        (sort_providers (find_many (is_eligible d time category pickup_lat pickup_lng) d.providers))
