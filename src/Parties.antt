-- ===== src/Parties.antt =====
-- Concrete data for the tests: a shipper, an approved driver with its provider, a shipment of each
-- kind.
use Prim.Native.String
use oyana_backend.Base.{true, false, none, some, [], ◌∷◌}
use oyana_backend.Base.Int.{pos}
use oyana_backend.Base.Text.{show_ℕ}
use oyana_backend.Profile.Enums.{UserRole, AccountRole, AppMode, DriverOnboardingStatus}
use oyana_backend.Profile.Schema.{Profile}
use oyana_backend.Provider.Schema.{Provider}
use oyana_backend.Shipments.Schema.{
  Shipment, ShipmentStatus, ShipmentMode, VehicleCategory, ShipmentScheduleType,
}
use oyana_backend.Dispatch.Schema.{
  DispatchOffer, DispatchOfferStatus, DispatchBatch, DispatchBatchStatus,
}
use oyana_backend.Value.{object, end}
use oyana_backend.Act.{World, ok}
use oyana_backend.Outside.{Outside}

abbrev pub outside : Outside
outside = record {
  uuid = λ n. String.◌++◌ "id" (show_ℕ n);
  now = λ n. n;
  is_expo_push_token = λ t. true;
  chunk_push_notifications = λ ms. [];
  send_push_notifications = λ n ms. ok [];
  is_farther_than = λ a b c d km. false;
  dispatch_max_radius_km = 50;
  dispatch_route_align_km = 5;
  dispatch_worker_batch_size = 100;
  distance_meters = λ a b c d. 12345;
  distance_km_hundredths = λ a b c d. 1234;
  text_to_bigint = λ s. none;
  default_commission_rate_bps = pos 1000;
  allowed_shipment_currencies = "NGN" ∷ [];
  base_price_fixed_minor = pos 150000;
  base_price_per_km_minor = pos 35000;
  base_price_minimum_minor = pos 250000;
  tracking_code = λ n. String.◌++◌ "SHP-" (show_ℕ n);
}

abbrev pub sam : Profile
sam = record {
  id = "sam";
  email = some "sam@oyana.app";
  phone_e164 = none;
  phone_verified = false;
  email_verified = true;
  role = some UserRole.shipper;
  account_role = AccountRole.user;
  active_app_mode = AppMode.shipper;
  driver_profile = none;
  notification_prompted_at = none;
  active_address_id = none;
  contact_for_providers = [];
  provider_members = [];
  notifications_enabled = false;
  push_permission_granted = false;
}

abbrev pub dan : Profile
dan = record sam {
  id = "dan";
  role = none;
  active_app_mode = AppMode.driver;
  driver_profile = some (record {
    provider_id = some "p1";
    onboarding_status = DriverOnboardingStatus.approved;
    can_dispatch = true;
    can_freight = true;
    presence = none;
  });
}

abbrev pub carrier : Provider
carrier = record {
  id = "p1";
  profile_id = some "dan";
  driver_type = some VehicleCategory.van;
  is_available = true;
  priority_score = pos 0;
  rating_avg = 0;
}

abbrev pub freight : Shipment
freight = record {
  id = "s1";
  tracking_code = "SHP-1";
  customer_profile_id = "sam";
  mode = ShipmentMode.marketplace;
  vehicle_category = VehicleCategory.van;
  schedule_type = ShipmentScheduleType.instant;
  status = ShipmentStatus.created;
  pickup_address_id = "a1";
  dropoff_address_id = "a2";
  scheduled_at = none;
  package_description = none;
  package_value_minor = none;
  special_instructions = none;
  requires_escrow = false;
  pricing_currency = "NGN";
  quoted_price_minor = some (pos 300000);
  final_price_minor = none;
  commission_rate_bps = pos 1000;
  commission_amount_minor = pos 0;
  cancelled_at = none;
  cancelled_by_profile_id = none;
  cancellation_reason = none;
}

abbrev pub parcel : Shipment
parcel = record freight {
  id = "s2";
  tracking_code = "SHP-2";
  mode = ShipmentMode.dispatch;
  status = ShipmentStatus.broadcasting;
}

abbrev pub offered : DispatchOffer
offered = record {
  id = "o1";
  batch_id = "d1";
  shipment_id = "s2";
  provider_id = "p1";
  status = DispatchOfferStatus.sent;
  sent_at = some 0;
  responded_at = none;
  expires_at = none;
  provider_eta_minutes = none;
  counter_amount_minor = none;
  counter_currency = none;
  counter_message = none;
  countered_at = none;
  metadata = object end;
}

abbrev pub batch : DispatchBatch
batch = record {
  id = "d1";
  shipment_id = "s2";
  status = DispatchBatchStatus.open';
  opened_at = some 0;
  closed_at = none;
  expires_at = none;
}

abbrev pub town : World
town = record {
  db = record {
    profiles = sam ∷ dan ∷ [];
    wallets = [];
    transactions = [];
    intents = [];
    withdrawals = [];
    cards = [];
    bank_accounts = [];
    keys = [];
    addresses = [];
    providers = carrier ∷ [];
    members = [];
    platform_configs = [];
    shipments = freight ∷ parcel ∷ [];
    items = [];
    events = [];
    milestones = [];
    bids = [];
    awards = [];
    batches = batch ∷ [];
    offers = offered ∷ [];
    assignments = [];
    notifications = [];
    devices = [];
  };
  asked = 0;
  sent = [];
  published = [];
}
