-- ===== src/Dispatch/Keeps.antt =====
-- What the proofs on dispatch.service.ts share: its queries write nothing, a batch is closed, a shipment
-- is assigned.
use oyana_backend.Base.{
  ℕ, String, Bool, true, false, ◌&&◌, ◌||◌, ◌≡◌, refl, Option, none, some, List, ◌==◌, arith,
  eq_refl,
}
use oyana_backend.Base.Int.{ℤ}
use oyana_backend.Base.Table.{
  find_first, exists, update_where, exists-or, found-exists_other, find_first-holds,
}
use oyana_backend.Db.{Db, offers, assignments, batches}
use oyana_backend.Dispatch.Schema.{DispatchOffer, ShipmentAssignment}
use oyana_backend.Dispatch.{
  find_shipment, find_provider_offer, require_provider_owned_active_assignment, close_batch,
  refreshed_offer, taken_by_other,
}
use oyana_backend.Dispatch.Respond.{same_assignment, assignment_row}
use oyana_backend.Dispatch.Exclusive.{
  IsExclusive, carries, IsExclusive-close_offers, IsExclusive-new_assignment,
}
use oyana_backend.Notifications.Quiet.{IgnoresNotices}
use oyana_backend.Act.{World, pure, create, ask, ◌>>=◌}
use oyana_backend.Act.Keeps.{Keeps, Keeps-bind, Keeps-pure, keeps_rules}
use oyana_backend.Act.Writes.{Keeps-update_by, Keeps-update_many_by}
use oyana_backend.Act.Outcome.{Outcome, Outcome-create_bind, Outcome-bind, Outcome-pure, Anything}
use oyana_backend.Outside.{Outside, new_id}

abbrev pub IsExclusiveDb : Db → Type 0
IsExclusiveDb d = IsExclusive d.offers d.assignments

pub ignores_notices : IgnoresNotices IsExclusiveDb
ignores_notices = record { notifications = λ d l h. h; devices = λ d l h. h }

module _ {P : Db → Type 0} where
  pub Keeps-find_shipment : (id : String) → Keeps P (find_shipment id)
  unfolding find_shipment
  Keeps-find_shipment id = search (keeps_rules)

  pub Keeps-find_provider_offer : (p o : String) → Keeps P (find_provider_offer p o)
  unfolding find_provider_offer
  Keeps-find_provider_offer p o = search (keeps_rules)

  pub Keeps-require_provider_owned_active_assignment :
      (p s : String) → Keeps P (require_provider_owned_active_assignment p s)
  unfolding require_provider_owned_active_assignment
  Keeps-require_provider_owned_active_assignment p s = search (keeps_rules)

  pub Keeps-refreshed_offer : (id : String) → Keeps P (refreshed_offer id)
  unfolding refreshed_offer
  Keeps-refreshed_offer id = search (keeps_rules)

pub Keeps-close_batch : (o : DispatchOffer) (time : ℕ) → Keeps IsExclusiveDb (close_batch o time)
unfolding close_batch
Keeps-close_batch o time =
    Keeps-bind _ _
      (Keeps-update_many_by offers _ _
        λ d. IsExclusive-close_offers _ _ d.offers d.assignments (λ x. refl) (λ x. refl))
      λ u. Keeps-bind _ _ (Keeps-update_by batches _ _ λ d h. h) λ b. Keeps-pure tt

-- an acceptance on its way: the offers are those of before with this one accepted
abbrev pub IsAccepting :
    DispatchOffer
    → (DispatchOffer → Bool)
    → (DispatchOffer → DispatchOffer)
    → List DispatchOffer
    → Db
    → Type 0
IsAccepting r p f os d =
    (d.offers ≡ update_where (λ o. o.id == r.id && p o) f os) × IsExclusive os d.assignments

abbrev pub IsAssigning :
    DispatchOffer
    → (DispatchOffer → Bool)
    → (DispatchOffer → DispatchOffer)
    → List DispatchOffer
    → Db
    → Type 0
IsAssigning r p f os d = IsAccepting r p f os d × (exists (carries r) d.assignments ≡ true)

-- the assignment that is there is the provider's
pub own-carries :
    (r : DispatchOffer) (ws : List ShipmentAssignment) (a : ShipmentAssignment)
    → find_first (λ (x : ShipmentAssignment). x.shipment_id == r.shipment_id) ws ≡ some a
    → taken_by_other r.provider_id (some a) ≡ false
    → exists (carries r) ws ≡ true
own-carries r ws a found own =
    let shipment =
      find_first-holds (λ (x : ShipmentAssignment). x.shipment_id == r.shipment_id) ws a found in
    found-exists_other _ (carries r) ws a found (ground arith)

module _ (out : Outside) where
  pub create_assignment-Outcome :
      (r : DispatchOffer) (p : DispatchOffer → Bool) (f : DispatchOffer → DispatchOffer)
      (os : List DispatchOffer) (price : Option ℤ) (currency : Option String) (w : World)
      → IsAccepting r p f os w.db
      → Outcome Anything
          (λ u d. IsAssigning r p f os d)
          (new_id out >>= λ id.
            create assignments
              (same_assignment id r.shipment_id r.id)
              (assignment_row id r price currency)
            >>= λ a. pure tt)
          w
  unfolding new_id ask
  create_assignment-Outcome r p f os price currency w h =
      Outcome-bind (λ id d. IsAccepting r p f os d) _ _ (record { at = h })
        λ id w' h'. Outcome-create_bind assignments _ _ _ tt λ new.
          let id_or =
            exists-or (λ (a : ShipmentAssignment). a.id == id)
              (λ a.
                a.shipment_id == r.shipment_id
                || elim a.dispatch_offer_id [ none ↦ false | some o ↦ o == r.id ])
              w'.db.assignments in
          let shipment_or =
            exists-or (λ (a : ShipmentAssignment). a.shipment_id == r.shipment_id)
              (λ a. elim a.dispatch_offer_id [ none ↦ false | some o ↦ o == r.id ])
              w'.db.assignments in
          Outcome-pure (
            (
              h'.0,
              IsExclusive-new_assignment (assignment_row id r price currency) os w'.db.assignments
                  h'.1 (ground arith) (ground arith),
            ),
            rw (eq_refl r.shipment_id, eq_refl r.provider_id) refl,
          )
