-- ===== src/Notifications/Schema.antt =====
-- Notifications and push devices: prisma/schemas/notifications.prisma, with the enums of
-- src/graphql/enums.ts.
use oyana_backend.Base.{String, Bool, Option}
use oyana_backend.Value.{Value}

pub data NotificationAudience : Type 0 where
  customer provider admin : NotificationAudience

pub data NotificationCategory : Type 0 where
  shipment dispatch support dispute system : NotificationCategory

pub record Notification : Type 0 where
  pub id : String
  pub recipient_profile_id : String
  pub audience : NotificationAudience
  pub category : NotificationCategory
  pub title : String
  pub body : String
  pub entity_type : Option String
  pub entity_id : Option String
  pub metadata : Value
  pub is_read : Bool

pub record PushDevice : Type 0 where
  pub id : String
  pub profile_id : String
  pub expo_push_token : String
  pub is_active : Bool

pub record PushMessage : Type 0 where
  pub to : String
  pub title : String
  pub body : String
  pub channel_id : String
  pub payload : Value

-- Expo's answer for one message, with `details?.error` of a refused one
pub data Ticket : Type 0 where
  accepted : Ticket
  refused : Option String → Ticket

abbrev pub audience_text : NotificationAudience → String
audience_text NotificationAudience.customer = "customer"
audience_text NotificationAudience.provider = "provider"
audience_text NotificationAudience.admin = "admin"

abbrev pub notification_category_text : NotificationCategory → String
notification_category_text NotificationCategory.shipment = "shipment"
notification_category_text NotificationCategory.dispatch = "dispatch"
notification_category_text NotificationCategory.support = "support"
notification_category_text NotificationCategory.dispute = "dispute"
notification_category_text NotificationCategory.system = "system"
