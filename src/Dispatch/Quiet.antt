-- ===== src/Dispatch/Quiet.antt =====
-- What dispatch.service.ts tells people leaves everything but notifications alone.
use oyana_backend.Base.{String, Option, none, some, List, [], ◌∷◌}
use oyana_backend.Base.Int.{ℤ}
use oyana_backend.Db.{Db}
use oyana_backend.Shipments.Schema.{Shipment}
use oyana_backend.Dispatch.Schema.{DispatchOffer}
use oyana_backend.Dispatch.Notices.{
  publish_each, publish_dispatch_offer_updates, tell_customer_declined, notify_declined,
  notify_countered, notify_counter_declined, notify_counter_accepted, notify_accepted,
  notify_shipment_progress,
}
use oyana_backend.Notifications.Quiet.{
  IgnoresNotices, Keeps-notify_customer, Keeps-notify_admins, Keeps-notify_provider_team,
}
use oyana_backend.Act.Keeps.{Keeps, Keeps-bind, Keeps-publish, Keeps-pure, keeps_rules}
use oyana_backend.Outside.{Outside}

module _ {P : Db → Type 0} where
  Keeps-publish_each : (l : List DispatchOffer) → Keeps P (publish_each l)
  unfolding publish_each
  Keeps-publish_each [] = search (keeps_rules)
  Keeps-publish_each (o ∷ l) =
      Keeps-bind _ _ (Keeps-publish _ _)
        λ u. Keeps-bind _ _ (Keeps-publish _ _) λ v. Keeps-publish_each l

  pub Keeps-publish_dispatch_offer_updates :
      (id : String) (offer : Option String) → Keeps P (publish_dispatch_offer_updates id offer)
  unfolding publish_dispatch_offer_updates
  Keeps-publish_dispatch_offer_updates id offer = search (keeps_rules, Keeps-publish_each)

module _ {P : Db → Type 0} (i : IgnoresNotices P) (out : Outside) where
  Keeps-tell_customer_declined :
      (s : Option Shipment) (o : DispatchOffer) → Keeps P (tell_customer_declined out s o)
  unfolding tell_customer_declined
  Keeps-tell_customer_declined none o = Keeps-pure tt
  Keeps-tell_customer_declined (some s) o = Keeps-notify_customer i out _ _

  pub Keeps-notify_declined :
      (id : String) (s : Option Shipment) (o : DispatchOffer) → Keeps P (notify_declined out id s o)
  unfolding notify_declined
  Keeps-notify_declined id s o =
      Keeps-bind _ _ (Keeps-tell_customer_declined s o)
        λ u. Keeps-bind _ _ (Keeps-notify_provider_team i out _ _) λ v. Keeps-notify_admins i out _

  pub Keeps-notify_countered :
      (id : String) (s : Shipment) (o : DispatchOffer) (amount : ℤ) (currency : String)
      → Keeps P (notify_countered out id s o amount currency)
  unfolding notify_countered
  Keeps-notify_countered id s o amount currency =
      Keeps-bind _ _ (Keeps-notify_customer i out _ _)
        λ u. Keeps-bind _ _ (Keeps-notify_provider_team i out _ _) λ v. Keeps-notify_admins i out _

  pub Keeps-notify_counter_declined :
      (s : Shipment) (o : DispatchOffer) → Keeps P (notify_counter_declined out s o)
  unfolding notify_counter_declined
  Keeps-notify_counter_declined s o =
      Keeps-bind _ _ (Keeps-notify_customer i out _ _)
        λ u. Keeps-bind _ _ (Keeps-notify_provider_team i out _ _) λ v. Keeps-notify_admins i out _

  pub Keeps-notify_counter_accepted :
      (s : Shipment) (o : DispatchOffer) → Keeps P (notify_counter_accepted out s o)
  unfolding notify_counter_accepted
  Keeps-notify_counter_accepted s o =
      Keeps-bind _ _ (Keeps-notify_customer i out _ _)
        λ u. Keeps-bind _ _ (Keeps-notify_provider_team i out _ _) λ v. Keeps-notify_admins i out _

  pub Keeps-notify_accepted :
      (id : String) (s : Shipment) (o : DispatchOffer) → Keeps P (notify_accepted out id s o)
  unfolding notify_accepted
  Keeps-notify_accepted id s o =
      Keeps-bind _ _ (Keeps-notify_provider_team i out _ _)
        λ u. Keeps-bind _ _ (Keeps-notify_customer i out _ _) λ v. Keeps-notify_admins i out _

  pub Keeps-notify_shipment_progress :
      (s : Shipment) (id title body : String)
      → Keeps P (notify_shipment_progress out s id title body)
  unfolding notify_shipment_progress
  Keeps-notify_shipment_progress s id title body =
      Keeps-bind _ _ (Keeps-notify_customer i out _ _)
        λ u. Keeps-bind _ _ (Keeps-notify_provider_team i out _ _) λ v. Keeps-notify_admins i out _
