-- ===== src/Shipments/Tests.antt =====
-- Prices at concrete inputs.
use oyana_backend.Base.{◌==◌, none, some, [], ◌∷◌, ◌≤◌, ◌<◌, ◌≡◌, refl, arith, ◌*◌, ◌+◌}
use oyana_backend.Base.Int.{pos, pos_part, neg_part, ◌≤ℤ◌, ◌+ℤ◌, ◌*ℤ◌, quot}
use oyana_backend.Base.Table.{find_first}
use oyana_backend.Parties.{outside, town, freight}
use oyana_backend.Shipments.Schema.{Shipment, ShipmentStatus}
use oyana_backend.Shipments.Change.{
  UpdateShipmentDto, CancelShipmentDto, update_shipment, cancel_shipment,
}
use oyana_backend.Shipments.Over.{over-is_final}
use oyana_backend.Act.{World}
use oyana_backend.Shipments.Pricing.{
  BasePriceConfig, price_estimate, calculate_commission, calculate_distance_fee_minor,
}
use oyana_backend.Shipments.Bounds.{price_estimate-bounds, calculate_commission-bounds}

abbrev config : BasePriceConfig
config = record {
  currency = "NGN";
  base_fare_minor = pos 150000;
  distance_per_km_minor = pos 35000;
  minimum_price_minor = pos 250000;
}

price_estimate-bounds_example :
    (35000 * 12345 ≤ 1000 * pos_part (price_estimate config 1234 12345).distance_fee_minor)
    × ((1000 * pos_part (price_estimate config 1234 12345).distance_fee_minor ≤ 35000 * 12345 + 999)
        × ((neg_part (price_estimate config 1234 12345).distance_fee_minor ≡ 0)
            × ((config.minimum_price_minor ≤ℤ (price_estimate config 1234 12345).base_price_minor)
                × (config.base_fare_minor +ℤ (price_estimate config 1234 12345).distance_fee_minor
                    ≤ℤ (price_estimate config 1234 12345).base_price_minor))))
price_estimate-bounds_example = price_estimate-bounds config 1234 12345 35000 refl

calculate_commission-bounds_example :
    (neg_part (calculate_commission (pos 582075) (pos 1000)) ≡ 0)
    × ((pos_part (calculate_commission (pos 582075) (pos 1000)) ≤ 582075)
        × ((10000 * pos_part (calculate_commission (pos 582075) (pos 1000)) ≤ 582075 * 1000)
            × (582075 * 1000
                < 10000 * pos_part (calculate_commission (pos 582075) (pos 1000)) + 10000)))
calculate_commission-bounds_example = calculate_commission-bounds 582075 1000 (ground arith)

fee_of_12345_metres : calculate_distance_fee_minor 12345 (pos 35000) ≡ pos 432075
unfolding calculate_distance_fee_minor quot ◌*ℤ◌ ◌+ℤ◌
fee_of_12345_metres = refl

abbrev called_off : Shipment
called_off = record freight { status = ShipmentStatus.cancelled }

abbrev late : World
late = record town { db = record (town.db) { shipments = called_off ∷ [] } }

abbrev reopening : UpdateShipmentDto
reopening = record {
  tracking_code = none;
  customer_profile_id = none;
  mode = none;
  vehicle_category = none;
  schedule_type = none;
  status = some ShipmentStatus.created;
  pickup_address_id = none;
  dropoff_address_id = none;
  scheduled_at = none;
  package_value_minor = none;
  package_description = none;
  special_instructions = none;
  requires_escrow = none;
  pricing_currency = none;
  quoted_price_minor = none;
  final_price_minor = none;
  commission_rate_bps = none;
  cancelled_at = none;
  cancelled_by_profile_id = none;
  cancellation_reason = none;
}

abbrev cancellation : CancelShipmentDto
cancellation = record { shipment_id = "s1"; cancellation_reason = "again" }

is_there : find_first (λ (x : Shipment). x.id == "s1") late.db.shipments ≡ some called_off
unfolding find_first
is_there = refl

over-is_final_example :
    ((update_shipment outside "sam" "s1" reopening late).1 ≡ late)
    × ((cancel_shipment outside "sam" cancellation late).1 ≡ late)
over-is_final_example =
    over-is_final outside "sam" reopening cancellation late called_off is_there refl
