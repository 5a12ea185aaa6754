-- ===== src/Shipments/Bounds.antt =====
-- The arithmetic of prices in src/shipments/shipments.service.ts: what the rounding may cost, and that
-- a commission stays within the price.
use oyana_backend.Base.{ℕ, ◌+◌, ◌*◌, ◌/◌, ◌≤◌, ◌<◌, ◌≡◌, ap, ◌∙◌, arith}
use native.Mathlib.Nat.{mul-le-mul_left}
use oyana_backend.Base.Int.{ℤ, pos, pos_part, neg_part, ◌≤ℤ◌, ◌+ℤ◌, ◌*ℤ◌, quot}
use oyana_backend.Shipments.Pricing.{
  BasePriceConfig, calculate_commission, calculate_distance_fee_minor, price_estimate, max_ℤ,
}

fee-pos :
    (meters rate : ℕ)
    → calculate_distance_fee_minor meters (pos rate) ≡ pos ((rate * meters + 999) / 1000)
unfolding calculate_distance_fee_minor quot ◌*ℤ◌ ◌+ℤ◌
fee-pos meters rate = ground arith

max-above : (a b : ℤ) → (a ≤ℤ max_ℤ a b) × (b ≤ℤ max_ℤ a b)
max-above a b = (ground arith, ground arith)

-- At a rate that is not negative, a thousand distance fees are the rate times the metres, rounded up by
-- less than a thousand, and the price is neither below the minimum nor below the base fare and the fee.
pub price_estimate-bounds :
    (config : BasePriceConfig) (km_hundredths meters rate : ℕ)
    → config.distance_per_km_minor ≡ pos rate
    → (rate * meters
        ≤ 1000 * pos_part (price_estimate config km_hundredths meters).distance_fee_minor)
      × ((1000 * pos_part (price_estimate config km_hundredths meters).distance_fee_minor
            ≤ rate * meters + 999)
          × ((neg_part (price_estimate config km_hundredths meters).distance_fee_minor ≡ 0)
              × ((config.minimum_price_minor
                    ≤ℤ (price_estimate config km_hundredths meters).base_price_minor)
                  × (config.base_fare_minor
                        +ℤ (price_estimate config km_hundredths meters).distance_fee_minor
                      ≤ℤ (price_estimate config km_hundredths meters).base_price_minor))))
price_estimate-bounds config km_hundredths meters rate h =
    let fee = ap (calculate_distance_fee_minor meters) h ∙ fee-pos meters rate in
    let part = ap pos_part fee in
    let above =
      max-above
        (config.base_fare_minor +ℤ (price_estimate config km_hundredths meters).distance_fee_minor)
        config.minimum_price_minor in
    (ground arith, (ground arith, (ap neg_part fee, (above.1, above.0))))

-- A commission at a rate of at most ten thousand basis points is not negative, is at most the price,
-- and is the exact share rounded down.
pub calculate_commission-bounds :
    (price bps : ℕ)
    → bps ≤ 10000
    → (neg_part (calculate_commission (pos price) (pos bps)) ≡ 0)
      × ((pos_part (calculate_commission (pos price) (pos bps)) ≤ price)
          × ((10000 * pos_part (calculate_commission (pos price) (pos bps)) ≤ price * bps)
              × (price * bps
                  < 10000 * pos_part (calculate_commission (pos price) (pos bps)) + 10000)))
unfolding calculate_commission quot ◌*ℤ◌
calculate_commission-bounds price bps h =
    let share : price * bps ≤ price * 10000 = mul-le-mul_left price h in
    (ground arith, (ground arith, (ground arith, ground arith)))
