-- ===== src/Dispatch/Notices.antt =====
-- Who is told of an answer to a dispatch offer, and what is pushed: dispatch.service.ts.
use Prim.Native.String
use oyana_backend.Base.{String, ◌&&◌, Option, none, some, List, [], ◌∷◌, ⊤, ◌==◌}
use oyana_backend.Base.Int.{ℤ}
use oyana_backend.Value.{Value, null, object, field, end, text, show_ℤ}
use oyana_backend.Db.{offers}
use oyana_backend.Shipments.Schema.{Shipment}
use oyana_backend.Notifications.Schema.{NotificationCategory}
use oyana_backend.Notifications.{
  NotificationContent, notify_customer, notify_provider_team, notify_admins,
}
use oyana_backend.Dispatch.Schema.{DispatchOffer}
use oyana_backend.MarketPlace.{id_in}
use oyana_backend.Act.{Act, pure, find_all, publish, ◌>>=◌, ◌>>◌}
use oyana_backend.Outside.{Outside}

abbrev content : String → String → String → String → Value → NotificationContent
content title body entity_type entity_id metadata = record {
  category = NotificationCategory.dispatch;
  title = title;
  body = body;
  entity_type = some entity_type;
  entity_id = some entity_id;
  metadata = metadata;
}

abbrev of_provider : String → Value
of_provider id = object (field "providerId" (text id) end)

unfoldable pub publish_each : List DispatchOffer → Act ⊤
publish_each [] = pure tt
publish_each (o ∷ os) = do
  publish (String.◌++◌ "DISPATCH_OFFER_UPDATED.PROVIDER." o.provider_id) o.id
  publish (String.◌++◌ "DISPATCH_OFFER_UPDATED.SHIPMENT." o.shipment_id) o.id
  publish_each os

-- of one offer, or of all offers of the shipment
unfoldable pub publish_dispatch_offer_updates : String → Option String → Act ⊤
publish_dispatch_offer_updates shipment_id offer_id = do
  found ← find_all offers (λ o. o.shipment_id == shipment_id && id_in offer_id o.id)
  publish_each found

module _ (out : Outside) where
  unfoldable pub tell_customer_declined : Option Shipment → DispatchOffer → Act ⊤
  tell_customer_declined none offer = pure tt
  tell_customer_declined (some shipment) offer = notify_customer out shipment.customer_profile_id (
      content (String.◌++◌ "Provider declined " shipment.tracking_code)
        "A provider declined this dispatch offer. We are still matching." "shipment"
        offer.shipment_id null)

  abbrev declined_body : String → Option Shipment → String
  declined_body prefix none = "A dispatch offer was declined."
  declined_body prefix (some s) = String.◌++◌ prefix (String.◌++◌ s.tracking_code ".")

  unfoldable pub notify_declined : String → Option Shipment → DispatchOffer → Act ⊤
  notify_declined provider_id shipment offer = do
    tell_customer_declined shipment offer
    notify_provider_team out provider_id (
        content "Dispatch offer declined" (declined_body "You declined shipment " shipment)
          "dispatch_offer" offer.id null)
    notify_admins out (
        content "Dispatch offer declined" (declined_body "Provider declined shipment " shipment)
          "dispatch_offer" offer.id (of_provider provider_id))

  unfoldable pub notify_countered : String → Shipment → DispatchOffer → ℤ → String → Act ⊤
  notify_countered provider_id shipment offer amount currency = do
    notify_customer out shipment.customer_profile_id (
        content (String.◌++◌ "Counter offer on " shipment.tracking_code)
          "A driver submitted a higher price for this dispatch request." "shipment" shipment.id
          (object (
            field "providerId" (text provider_id) (
              field "offerId" (text offer.id) (
                field "counterAmountMinor" (text (show_ℤ amount))
                  (field "counterCurrency" (text currency) end))))))
    notify_provider_team out provider_id (
        content "Counter offer submitted"
          (String.◌++◌ "You submitted a higher price for shipment "
            (String.◌++◌ shipment.tracking_code "."))
          "dispatch_offer" offer.id null)
    notify_admins out (
        content "Dispatch counter offer submitted"
          (String.◌++◌ "Provider submitted a counter offer for shipment "
            (String.◌++◌ shipment.tracking_code "."))
          "dispatch_offer" offer.id
          (object (
            field "providerId" (text provider_id) (
              field "shipmentId" (text shipment.id) (
                field "counterAmountMinor" (text (show_ℤ amount))
                  (field "counterCurrency" (text currency) end))))))

  unfoldable pub notify_counter_declined : Shipment → DispatchOffer → Act ⊤
  notify_counter_declined shipment offer = do
    notify_customer out shipment.customer_profile_id (
        content (String.◌++◌ "Counter offer declined for " shipment.tracking_code)
          "You declined the driver counter offer." "dispatch_offer" offer.id null)
    notify_provider_team out offer.provider_id (
        content "Counter offer declined"
          (String.◌++◌ "Your counter offer for shipment "
            (String.◌++◌ shipment.tracking_code " was declined."))
          "dispatch_offer" offer.id null)
    notify_admins out (
        content "Dispatch counter declined"
          (String.◌++◌ "Shipper declined the counter offer for shipment "
            (String.◌++◌ shipment.tracking_code "."))
          "dispatch_offer" offer.id
          (object (
            field "shipmentId" (text shipment.id)
              (field "providerId" (text offer.provider_id) end))))

  abbrev accepted_metadata : String → String → Value
  accepted_metadata provider_id offer_id =
      object (field "providerId" (text provider_id) (field "offerId" (text offer_id) end))

  unfoldable pub notify_counter_accepted : Shipment → DispatchOffer → Act ⊤
  notify_counter_accepted shipment offer = do
    notify_customer out shipment.customer_profile_id (
        content (String.◌++◌ "Counter accepted for " shipment.tracking_code)
          "You accepted the driver counter offer and the shipment is now assigned." "shipment"
          shipment.id null)
    notify_provider_team out offer.provider_id (
        content "Counter offer accepted"
          (String.◌++◌ "Your counter offer for shipment "
            (String.◌++◌ shipment.tracking_code " was accepted."))
          "shipment" shipment.id null)
    notify_admins out (
        content "Dispatch counter accepted"
          (String.◌++◌ "Counter offer accepted for shipment "
            (String.◌++◌ shipment.tracking_code "."))
          "shipment" shipment.id (accepted_metadata offer.provider_id offer.id))

  unfoldable pub notify_accepted : String → Shipment → DispatchOffer → Act ⊤
  notify_accepted provider_id shipment offer = do
    notify_provider_team out provider_id (
        content "Dispatch offer accepted"
          (String.◌++◌ "You accepted shipment " (String.◌++◌ shipment.tracking_code ".")) "shipment"
          shipment.id null)
    notify_customer out shipment.customer_profile_id (
        content (String.◌++◌ "Shipment " (String.◌++◌ shipment.tracking_code " assigned"))
          "A provider has accepted your shipment." "shipment" shipment.id null)
    notify_admins out (
        content (String.◌++◌ "Shipment " (String.◌++◌ shipment.tracking_code " assigned"))
          "A provider accepted the dispatch offer." "shipment" shipment.id
          (accepted_metadata provider_id offer.id))

  unfoldable pub notify_shipment_progress : Shipment → String → String → String → Act ⊤
  notify_shipment_progress shipment provider_id title body = do
    notify_customer out shipment.customer_profile_id
        (content title body "shipment" shipment.id null)
    notify_provider_team out provider_id (content title body "shipment" shipment.id null)
    notify_admins out (
        content (String.◌++◌ shipment.tracking_code (String.◌++◌ ": " title)) body "shipment"
          shipment.id (of_provider provider_id))
