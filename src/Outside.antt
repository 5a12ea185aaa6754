-- ===== src/Outside.antt =====
-- What the services outside the wallet take from outside: ids, the clock, Expo's push service. Each
-- answer may depend on how many questions were put before.
use oyana_backend.Base.{ℕ, String, Bool, Option, List}
use oyana_backend.Base.Int.{ℤ}
use oyana_backend.Notifications.Schema.{PushMessage, Ticket}
use oyana_backend.Act.{Result, ok, Act, ask}

pub record Outside : Type 0 where
  pub uuid : ℕ → String
  pub now : ℕ → ℕ
  -- `Expo.isExpoPushToken`, `chunkPushNotifications`, `sendPushNotificationsAsync`
  pub is_expo_push_token : String → Bool
  pub chunk_push_notifications : List PushMessage → List (List PushMessage)
  pub send_push_notifications : ℕ → List PushMessage → Result (List Ticket)
  -- `haversineDistanceKm`, which computes in floating point, compared with a number of kilometres
  pub is_farther_than : (lat1 lng1 lat2 lng2 : ℤ) → ℕ → Bool
  pub dispatch_max_radius_km : ℕ
  pub dispatch_route_align_km : ℕ
  pub dispatch_worker_batch_size : ℕ
  -- `Math.max(0, Math.round(calculateDistanceKm(…) * 1000))`, in floating point too
  pub distance_meters : (lat1 lng1 lat2 lng2 : ℤ) → ℕ
  -- `Number(calculateDistanceKm(…).toFixed(2))`, in hundredths of a kilometre
  pub distance_km_hundredths : (lat1 lng1 lat2 lng2 : ℤ) → ℕ
  -- `BigInt(text)`, which may throw
  pub text_to_bigint : String → Option ℤ
  pub default_commission_rate_bps : ℤ
  pub allowed_shipment_currencies : List String
  -- SHIPMENT_BASE_PRICE_FIXED_MINOR and its companions, or their defaults
  pub base_price_fixed_minor : ℤ
  pub base_price_per_km_minor : ℤ
  pub base_price_minimum_minor : ℤ
  -- `SHP-…` of `generateTrackingCode`, made of the time and a random number
  pub tracking_code : ℕ → String

module _ (out : Outside) where
  unfoldable pub new_id : Act String
  new_id = ask λ n. ok (out.uuid n)

  unfoldable pub time_now : Act ℕ
  time_now = ask λ n. ok (out.now n)
