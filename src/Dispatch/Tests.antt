-- ===== src/Dispatch/Tests.antt =====
-- Dispatch at concrete inputs: the driver accepts its offer, twice, and reports its way.
use oyana_backend.Base.{◌≡◌, ◌≤◌, ◌⊎◌, String, true, false, refl, none, some, List, [], ◌∷◌, arith}
use oyana_backend.Db.{Db}
use oyana_backend.Parties.{outside, town, parcel}
use oyana_backend.Base.Table.{find_first, find_last, find_many, update_where, All}
use oyana_backend.Base.Text.{show_ℕ, trim, trim_start, trim_end}
use oyana_backend.Act.{
  ◌>>=◌, ask, try_catch, transaction, find, find_oldest, find_all, create, update, update_many,
  update_count, publish,
}
use oyana_backend.User.{assert_driver_onboarding_complete}
use oyana_backend.Profile.Onboarding.{is_driver_onboarding_completed, resolve_onboarding_step}
use oyana_backend.Provider.Access.{resolve_provider_id_for_profile, require_operational_provider_id}
use oyana_backend.Outside.{Outside, new_id, time_now}
use oyana_backend.Dispatch.{can_respond_to_offer, find_shipment, find_provider_offer, close_batch}
use oyana_backend.Dispatch.Respond.{
  accept_in_transaction, accept_pending, settle_acceptance, assign_offer, repeat_acceptance,
  accept_dispatch_offer, respond_to_dispatch_offer,
}
use oyana_backend.Dispatch.Notices.{notify_accepted, publish_dispatch_offer_updates, publish_each}
use oyana_backend.Notifications.{
  normalize_input, normalize_all, insert_notifications, persist_and_push, create_normalized,
  create_many_notifications, create_notification, notify_profile, notify_admins, notify_customer,
  notify_provider_team,
}
use oyana_backend.Notifications.Push.{
  distinct, resolve_channel_id, build_push_data, push_message, push_messages, invalid_device_ids,
  send_chunk, send_chunks, deactivate, send_messages, dispatch_push_notifications,
}
use oyana_backend.Shipments.Schema.{Shipment, ShipmentStatus}
use oyana_backend.Dispatch.Schema.{DispatchOffer, DispatchOfferStatus}
use oyana_backend.Dispatch.{UpdateDispatchOfferDto}
use oyana_backend.Dispatch.Keeps.{IsExclusiveDb}
use oyana_backend.Dispatch.Broadcast.{may_dispatch, is_shipment_due_for_dispatch}
use oyana_backend.Dispatch.Sweep.{due_shipments, sort_due, insert_due, take_first}
use oyana_backend.Dispatch.Sweep.Batch.{length, Has, IsServed, due_shipments-IsServed}
use oyana_backend.Dispatch.Served.{
  DispatchRequest, respond, leave, pick_up, drop_off, serve_dispatch, HasOneProvider,
  serve_dispatch-one_provider,
}

abbrev acceptance : UpdateDispatchOfferDto
acceptance = record {
  offer_id = "o1";
  status = DispatchOfferStatus.accepted;
  responded_at = none;
  provider_eta_minutes = some 12;
  counter_amount_minor = none;
  counter_currency = none;
  counter_message = none;
}

abbrev requests : List DispatchRequest
requests =
    respond "dan" acceptance
    ∷ respond "dan" acceptance
    ∷ leave "dan" "s2"
    ∷ pick_up "dan" "s2"
    ∷ drop_off "dan" "s2"
    ∷ []

town-IsExclusive : IsExclusiveDb town.db
town-IsExclusive = record {
  offers_unique = (refl, tt);
  ids_unique = tt;
  assigned_once = tt;
  backed = (λ accepted. absurd (ground arith), tt);
}

serve_dispatch-one_provider_example :
    IsExclusiveDb (serve_dispatch outside requests town).db
    × HasOneProvider (serve_dispatch outside requests town).db.offers
serve_dispatch-one_provider_example =
    serve_dispatch-one_provider outside requests town town-IsExclusive

abbrev new_parcel : Shipment
new_parcel = record parcel { status = ShipmentStatus.created }

-- two parcels wait, and the worker takes one
abbrev one_at_a_time : Outside
one_at_a_time = record outside { dispatch_worker_batch_size = 1 }

abbrev two_waiting : Db
two_waiting = record (town.db) {
  shipments =
      record new_parcel { id = "s3"; scheduled_at = some 7 }
      ∷ record new_parcel { id = "s4"; scheduled_at = some 4 }
      ∷ [];
}

due_shipments-IsServed_example :
    (length (due_shipments one_at_a_time 8 two_waiting) ≤ 1)
    × All
        (λ t. (may_dispatch 8 t two_waiting ≡ true) × Has two_waiting.shipments t)
        (due_shipments one_at_a_time 8 two_waiting)
    × All
        (λ s.
          (may_dispatch 8 s two_waiting ≡ false)
          ⊎ IsServed 1 (due_shipments one_at_a_time 8 two_waiting) s)
        two_waiting.shipments
due_shipments-IsServed_example = due_shipments-IsServed one_at_a_time 8 two_waiting

abbrev ids : List Shipment → List String
ids [] = []
ids (s ∷ ss) = s.id ∷ ids ss

due_first : ids (due_shipments one_at_a_time 8 two_waiting) ≡ "s4" ∷ []
unfolding due_shipments sort_due insert_due take_first find_many find_first
    is_shipment_due_for_dispatch
due_first = refl

abbrev state_of_offers : List DispatchOffer → List DispatchOfferStatus
state_of_offers [] = []
state_of_offers (o ∷ os) = o.status ∷ state_of_offers os

-- the driver accepts its offer, and another answer to it is the same
acceptance_run :
    state_of_offers
      (serve_dispatch outside
        (respond "dan" acceptance ∷ respond "dan" acceptance ∷ [])
        town).db.offers
    ≡ DispatchOfferStatus.accepted ∷ []
unfolding find_first find_last find_many update_where ◌>>=◌ ask try_catch transaction find
    find_oldest find_all create update update_many update_count publish
    assert_driver_onboarding_complete resolve_provider_id_for_profile
    require_operational_provider_id is_driver_onboarding_completed resolve_onboarding_step new_id
    time_now can_respond_to_offer find_shipment find_provider_offer close_batch
    accept_in_transaction accept_pending settle_acceptance assign_offer repeat_acceptance
    accept_dispatch_offer respond_to_dispatch_offer notify_accepted publish_dispatch_offer_updates
    publish_each normalize_input normalize_all insert_notifications persist_and_push
    create_normalized create_many_notifications create_notification notify_profile notify_admins
    notify_customer notify_provider_team distinct resolve_channel_id build_push_data push_message
    push_messages invalid_device_ids send_chunk send_chunks deactivate send_messages
    dispatch_push_notifications show_ℕ trim trim_start trim_end
acceptance_run = refl
