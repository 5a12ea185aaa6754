-- ===== src/Shipments/Pricing.antt =====
-- Prices of shipments in shipments.service.ts: the base price of a distance, and the commission.
use Prim.Native.String
use oyana_backend.Base.{
  ℕ, String, Bool, true, not, Option, none, some, List, [], ◌∷◌, if◌then◌else◌, ◌&&◌, ◌==◌, get_or,
}
use oyana_backend.Base.Int.{ℤ, pos, negsuc, ◌+ℤ◌, ◌*ℤ◌, quot, ltb_ℤ}
use oyana_backend.Base.Text.{trim, to_upper}
use oyana_backend.Base.Table.{find_first}
use oyana_backend.Value.{Value, undefined, text, num}
use oyana_backend.Db.{addresses, platform_configs}
use oyana_backend.Profile.Enums.{UserType}
use oyana_backend.Shipments.Schema.{PlatformConfig}
use oyana_backend.Provider.Access.{require_user_role, is_admin}
use oyana_backend.Act.{
  Act, pure, bad_request, forbidden, not_found, or_throw, throw_if, find, find_all, ◌>>=◌, ◌>>◌,
}
use oyana_backend.Outside.{Outside}

pub record EstimateShipmentBasePriceDto : Type 0 where
  pub pickup_address_id : Option String
  pub pickup_lat : Option ℤ
  pub pickup_lng : Option ℤ
  pub dropoff_address_id : Option String
  pub dropoff_lat : Option ℤ
  pub dropoff_lng : Option ℤ
  pub currency : Option String

pub record BasePriceConfig : Type 0 where
  pub currency : String
  pub base_fare_minor : ℤ
  pub distance_per_km_minor : ℤ
  pub minimum_price_minor : ℤ

pub record ShipmentBasePriceEstimate : Type 0 where
  pub currency : String
  -- `distanceKm`, which has two decimals, in hundredths
  pub distance_km_hundredths : ℕ
  pub base_fare_minor : ℤ
  pub distance_fee_minor : ℤ
  pub minimum_price_minor : ℤ
  pub base_price_minor : ℤ

pub record Point : Type 0 where
  pub lat : ℤ
  pub lng : ℤ

unfoldable pub calculate_commission : ℤ → ℤ → ℤ
unfolding quot ◌*ℤ◌
calculate_commission price_minor commission_rate_bps =
    quot (price_minor *ℤ commission_rate_bps) 10000

-- rounded up to a whole unit
unfoldable pub calculate_distance_fee_minor : ℕ → ℤ → ℤ
unfolding quot ◌*ℤ◌ ◌+ℤ◌
calculate_distance_fee_minor meters distance_per_km_minor =
    quot (distance_per_km_minor *ℤ pos meters +ℤ pos 999) 1000

abbrev pub max_ℤ : ℤ → ℤ → ℤ
max_ℤ a b = if ltb_ℤ b a then a else b

-- The price of a distance that is given twice: in hundredths of a kilometre, which are answered, and in
-- metres, which are paid for.
abbrev pub price_estimate : BasePriceConfig → ℕ → ℕ → ShipmentBasePriceEstimate
price_estimate config km_hundredths meters =
    let fee = calculate_distance_fee_minor meters config.distance_per_km_minor in
    record {
      currency = config.currency;
      distance_km_hundredths = km_hundredths;
      base_fare_minor = config.base_fare_minor;
      distance_fee_minor = fee;
      minimum_price_minor = config.minimum_price_minor;
      base_price_minor = max_ℤ (config.base_fare_minor +ℤ fee) config.minimum_price_minor;
    }

-- the text after trimming, unless it is empty
abbrev pub trimmed : Option String → Option String
trimmed none = none
trimmed (some s) = if trim s == "" then none else some (trim s)

unfoldable pub read_config_string : Value → Option String
read_config_string (text s) = if trim s == "" then none else some (to_upper (trim s))
read_config_string _ = none

abbrev floor_at_zero : ℤ → ℤ
floor_at_zero (pos n) = pos n
floor_at_zero (negsuc n) = pos 0

abbrev config_value : List PlatformConfig → String → Value
config_value rows key = elim (find_first (λ r. r.key == key) rows) [
  | none ↦ undefined
  | some r ↦ r.value
]

abbrev first_or_ngn : List String → String
first_or_ngn [] = "NGN"
first_or_ngn (c ∷ cs) = if c == "" then "NGN" else c

abbrev missing_point : String → String
missing_point label =
    String.◌++◌ "Provide "
      (String.◌++◌ label (String.◌++◌ " coordinates or a saved " (String.◌++◌ label " address.")))

-- the address by its label and its (trimmed) id
unfoldable pub saved_point : String → String → String → Bool → Act Point
saved_point label address_id allowed_profile_id allow_any_address = do
  found ← find addresses (λ a. a.id == address_id)
  address ← or_throw found (
      not_found
        (String.◌++◌ label (String.◌++◌ " address " (String.◌++◌ address_id " was not found"))))
  throw_if (not allow_any_address && not (address.profile_id == allowed_profile_id)) (
      forbidden
        (String.◌++◌ "You cannot use that " (String.◌++◌ label " address for price estimation.")))
  lat ←
      or_throw address.lat
        (bad_request (String.◌++◌ label " address does not have saved coordinates yet."))
  lng ←
      or_throw address.lng
        (bad_request (String.◌++◌ label " address does not have saved coordinates yet."))
  pure (record { lat = lat; lng = lng })

unfoldable pub resolve_estimate_point :
    String → Option String → Option ℤ → Option ℤ → String → Bool → Act Point
resolve_estimate_point label address_id lat lng allowed_profile_id allow_any_address =
    elim (trimmed address_id) [
      | some id ↦ saved_point label id allowed_profile_id allow_any_address
      | none ↦ (do
        a ← or_throw lat (bad_request (missing_point label))
        b ← or_throw lng (bad_request (missing_point label))
        pure (record { lat = a; lng = b }))
    ]

module _ (out : Outside) where
  unfoldable pub get_allowed_shipment_currencies : List String
  get_allowed_shipment_currencies = elim out.allowed_shipment_currencies [
    | [] ↦ "NGN" ∷ []
    | c ∷ cs ↦ c ∷ cs
  ]

  unfoldable pub read_config_big_int : Value → ℤ → ℤ
  read_config_big_int (num n) fallback = floor_at_zero n
  read_config_big_int (text s) fallback =
      if trim s == "" then fallback else get_or (out.text_to_bigint (trim s)) fallback
  read_config_big_int _ fallback = fallback

  unfoldable pub get_shipment_base_price_config : Option String → Act BasePriceConfig
  get_shipment_base_price_config requested_currency = do
    rows ← find_all platform_configs (λ r. true)
    let fallback_currency =
        get_or (read_config_string (elim requested_currency [ none ↦ undefined | some s ↦ text s ]))
          (first_or_ngn get_allowed_shipment_currencies)
    pure (record {
      currency =
          get_or (read_config_string (config_value rows "shipment_base_price_currency"))
            fallback_currency;
      base_fare_minor =
          read_config_big_int (config_value rows "shipment_base_price_fixed_minor")
            out.base_price_fixed_minor;
      distance_per_km_minor =
          read_config_big_int (config_value rows "shipment_base_price_per_km_minor")
            out.base_price_per_km_minor;
      minimum_price_minor =
          read_config_big_int (config_value rows "shipment_base_price_minimum_minor")
            out.base_price_minimum_minor;
    })

  unfoldable pub build_shipment_base_price_estimate :
      EstimateShipmentBasePriceDto → String → Bool → Act ShipmentBasePriceEstimate
  build_shipment_base_price_estimate input allowed_profile_id allow_any_address = do
    pickup ←
        resolve_estimate_point "pickup" input.pickup_address_id input.pickup_lat input.pickup_lng
          allowed_profile_id allow_any_address
    dropoff ←
        resolve_estimate_point "dropoff" input.dropoff_address_id input.dropoff_lat
          input.dropoff_lng allowed_profile_id allow_any_address
    config ← get_shipment_base_price_config input.currency
    pure (
        price_estimate config
          (out.distance_km_hundredths pickup.lat pickup.lng dropoff.lat dropoff.lng)
          (out.distance_meters pickup.lat pickup.lng dropoff.lat dropoff.lng))

  unfoldable pub estimate_shipment_base_price :
      String → EstimateShipmentBasePriceDto → Act ShipmentBasePriceEstimate
  estimate_shipment_base_price viewer_profile_id input = do
    viewer_role ←
        require_user_role viewer_profile_id
          (UserType.admin ∷ UserType.individual ∷ UserType.business ∷ [])
    build_shipment_base_price_estimate input viewer_profile_id (is_admin viewer_role)
