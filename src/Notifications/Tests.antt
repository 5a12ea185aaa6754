-- ===== src/Notifications/Tests.antt =====
-- Notifications at concrete inputs.
use oyana_backend.Base.{◌≡◌, none}
use oyana_backend.Value.{undefined}
use oyana_backend.Parties.{outside, town}
use oyana_backend.Notifications.Schema.{NotificationCategory}
use oyana_backend.Notifications.{
  NotificationContent, notify_customer, notify_admins, notify_provider_team,
}
use oyana_backend.Notifications.Returns.{notify-returns}
use oyana_backend.Act.{ok}

abbrev news : NotificationContent
news = record {
  category = NotificationCategory.shipment;
  title = "Shipment SHP-1 updated";
  body = "Status changed.";
  entity_type = none;
  entity_id = none;
  metadata = undefined;
}

notify-returns_example :
    ((notify_customer outside "p1" news town).0 ≡ ok tt)
    × (((notify_admins outside news town).0 ≡ ok tt)
        × ((notify_provider_team outside "p1" news town).0 ≡ ok tt))
notify-returns_example = notify-returns outside "p1" news town
