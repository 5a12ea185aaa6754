-- ===== src/Dispatch/Exclusive.antt =====
-- What the offers and the assignments of dispatch.service.ts promise together, and the writes that
-- keep it.
use oyana_backend.Base.{
  String, Bool, true, false, ◌&&◌, ◌≡◌, refl, sym, ap, ◌∙◌, some, List, [], ◌∷◌, if◌then◌else◌,
  arith, Bool-cases, inl, inr, ◌==◌, eq_iff,
}
use oyana_backend.Base.Table.{find_first, update_where, exists, All, All-map}
use oyana_backend.Base.Unique.{IsUnique, update_where-IsUnique, IsUnique-found}
use oyana_backend.Dispatch.Schema.{DispatchOffer, ShipmentAssignment, is_offer_accepted}

abbrev pub offer_id : DispatchOffer → String
offer_id o = o.id

abbrev pub assignment_id : ShipmentAssignment → String
assignment_id a = a.id

abbrev pub assigned_shipment : ShipmentAssignment → String
assigned_shipment a = a.shipment_id

-- the assignment gives the offer's shipment to the offer's provider
abbrev pub carries : DispatchOffer → ShipmentAssignment → Bool
carries o a = a.shipment_id == o.shipment_id && a.provider_id == o.provider_id

-- The shipment of an accepted offer is assigned to the offer's provider.
abbrev pub IsBacked : List ShipmentAssignment → DispatchOffer → Type 0
IsBacked ws o = is_offer_accepted o.status ≡ true → exists (carries o) ws ≡ true

-- ids are distinct, a shipment has at most one assignment, accepted offers are backed by it
pub record IsExclusive (os : List DispatchOffer) (ws : List ShipmentAssignment) : Type 0 where
  pub offers_unique : IsUnique offer_id os
  pub ids_unique : IsUnique assignment_id ws
  pub assigned_once : IsUnique assigned_shipment ws
  pub backed : All (IsBacked ws) os

-- A new offer that is not accepted.
pub IsExclusive-new_offer :
    (o : DispatchOffer) (os : List DispatchOffer) (ws : List ShipmentAssignment)
    → IsExclusive os ws
    → exists (λ (x : DispatchOffer). x.id == o.id) os ≡ false
    → is_offer_accepted o.status ≡ false
    → IsExclusive (o ∷ os) ws
IsExclusive-new_offer o os ws h new open' = record {
  offers_unique = (new, h.offers_unique);
  ids_unique = h.ids_unique;
  assigned_once = h.assigned_once;
  backed = (λ accepted. absurd (ground arith), h.backed);
}

-- Offers change into ones that are not accepted.
pub IsExclusive-close_offers :
    (p : DispatchOffer → Bool) (f : DispatchOffer → DispatchOffer) (os : List DispatchOffer)
    (ws : List ShipmentAssignment)
    → ((o : DispatchOffer) → (f o).id ≡ o.id)
    → ((o : DispatchOffer) → is_offer_accepted (f o).status ≡ false)
    → IsExclusive os ws
    → IsExclusive (update_where p f os) ws
unfolding update_where
IsExclusive-close_offers p f os ws same_id closed h = record {
  offers_unique = update_where-IsUnique offer_id p f same_id os h.offers_unique;
  ids_unique = h.ids_unique;
  assigned_once = h.assigned_once;
  backed = all os h.backed;
}
  where
    pick : (o : DispatchOffer) (hit : Bool) → IsBacked ws o → IsBacked ws (if hit then f o else o)
    pick o true b = λ accepted. let not_accepted = closed o in absurd (ground arith)
    pick o false b = b

    all : (l : List DispatchOffer) → All (IsBacked ws) l → All (IsBacked ws) (update_where p f l)
    all [] b = tt
    all (o ∷ l) b = (pick o (p o) b.0, all l b.1)

-- A new assignment of a shipment that had none.
pub IsExclusive-new_assignment :
    (a : ShipmentAssignment) (os : List DispatchOffer) (ws : List ShipmentAssignment)
    → IsExclusive os ws
    → exists (λ (x : ShipmentAssignment). x.id == a.id) ws ≡ false
    → exists (λ (x : ShipmentAssignment). x.shipment_id == a.shipment_id) ws ≡ false
    → IsExclusive os (a ∷ ws)
IsExclusive-new_assignment a os ws h new_id new_shipment = record {
  offers_unique = h.offers_unique;
  ids_unique = (new_id, h.ids_unique);
  assigned_once = (new_shipment, h.assigned_once);
  backed = All-map (λ o b accepted. ground (arith, b accepted)) os h.backed;
}

-- the same shipments have the same providers after the change
pub exists-carries :
    (o : DispatchOffer) (p : ShipmentAssignment → Bool)
    (f : ShipmentAssignment → ShipmentAssignment) (ws : List ShipmentAssignment)
    → ((a : ShipmentAssignment) → (f a).shipment_id ≡ a.shipment_id)
    → All (λ a. p a ≡ true → (f a).provider_id ≡ a.provider_id) ws
    → exists (carries o) (update_where p f ws) ≡ exists (carries o) ws
unfolding update_where
exists-carries o p f [] same_shipment same = refl
exists-carries o p f (a ∷ ws) same_shipment same = elim (Bool-cases (p a)) [
  | inl hit ↦
      rw (hit, same_shipment a, same.0 hit, exists-carries o p f ws same_shipment same.1) refl
  | inr miss ↦ rw (miss, exists-carries o p f ws same_shipment same.1) refl
]

-- Assignments change, but not to another shipment or provider.
pub IsExclusive-change_assignments :
    (p : ShipmentAssignment → Bool) (f : ShipmentAssignment → ShipmentAssignment)
    (os : List DispatchOffer) (ws : List ShipmentAssignment)
    → ((a : ShipmentAssignment) → (f a).id ≡ a.id)
    → ((a : ShipmentAssignment) → (f a).shipment_id ≡ a.shipment_id)
    → All (λ a. p a ≡ true → (f a).provider_id ≡ a.provider_id) ws
    → IsExclusive os ws
    → IsExclusive os (update_where p f ws)
IsExclusive-change_assignments p f os ws same_id same_shipment same h = record {
  offers_unique = h.offers_unique;
  ids_unique = update_where-IsUnique assignment_id p f same_id ws h.ids_unique;
  assigned_once = update_where-IsUnique assigned_shipment p f same_shipment ws h.assigned_once;
  backed =
      All-map (λ o b accepted. exists-carries o p f ws same_shipment same ∙ b accepted) os h.backed;
}

-- An offer that was found changes, and its shipment is assigned to its provider.
pub IsExclusive-accept :
    (q p : DispatchOffer → Bool) (r : DispatchOffer) (f : DispatchOffer → DispatchOffer)
    (os : List DispatchOffer) (ws : List ShipmentAssignment)
    → IsExclusive os ws
    → find_first q os ≡ some r
    → ((o : DispatchOffer) → (f o).id ≡ o.id)
    → ((o : DispatchOffer) → (f o).shipment_id ≡ o.shipment_id)
    → ((o : DispatchOffer) → (f o).provider_id ≡ o.provider_id)
    → exists (carries r) ws ≡ true
    → IsExclusive (update_where (λ o. o.id == r.id && p o) f os) ws
unfolding update_where
IsExclusive-accept q p r f os ws h found same_id same_shipment same_provider assigned = record {
  offers_unique = update_where-IsUnique offer_id _ f same_id os h.offers_unique;
  ids_unique = h.ids_unique;
  assigned_once = h.assigned_once;
  backed = all os (IsUnique-found offer_id q r os h.offers_unique found) h.backed;
}
  where
    carried : (o : DispatchOffer) → o ≡ r → exists (carries (f o)) ws ≡ true
    carried o is_r =
        ap
          (λ k.
            exists
              (λ (a : ShipmentAssignment). a.shipment_id == k && a.provider_id == (f o).provider_id)
              ws)
          (same_shipment o)
        ∙ ap
            (λ k.
              exists
                (λ (a : ShipmentAssignment). a.shipment_id == o.shipment_id && a.provider_id == k)
                ws)
            (same_provider o)
        ∙ ap (λ x. exists (carries x) ws) is_r
        ∙ assigned

    pick :
        (o : DispatchOffer) (hit : Bool)
        → (hit ≡ true → o ≡ r)
        → IsBacked ws o
        → IsBacked ws (if hit then f o else o)
    pick o true only b = λ accepted. carried o (only refl)
    pick o false only b = b

    all :
        (l : List DispatchOffer)
        → All (λ o. (o.id == r.id) ≡ true → o ≡ r) l
        → All (IsBacked ws) l
        → All (IsBacked ws) (update_where (λ o. o.id == r.id && p o) f l)
    all [] only b = tt
    all (o ∷ l) only b =
        (pick o (o.id == r.id && p o) (λ hit. only.0 (ground arith)) b.0, all l only.1 b.1)

-- the shipment of a carried offer is assigned
carried-assigned :
    (o : DispatchOffer) (ws : List ShipmentAssignment)
    → exists (carries o) ws ≡ true
    → exists (λ (a : ShipmentAssignment). a.shipment_id == o.shipment_id) ws ≡ true
carried-assigned o [] e = e
carried-assigned o (a ∷ ws) e = ground (arith, carried-assigned o ws)

-- the first assignment is of the offer's shipment, no other is
first-carries :
    (o : DispatchOffer) (a : ShipmentAssignment) (ws : List ShipmentAssignment)
    → exists (λ (x : ShipmentAssignment). x.shipment_id == a.shipment_id) ws ≡ false
    → a.shipment_id ≡ o.shipment_id
    → exists (carries o) (a ∷ ws) ≡ true
    → a.provider_id ≡ o.provider_id
first-carries o a ws only same e =
    let elsewhere = carried-assigned o ws in
    let moved = ap (λ k. exists (λ (x : ShipmentAssignment). x.shipment_id == k) ws) same in
    let provider = eq_iff a.provider_id o.provider_id in ground arith

-- Two offers of one shipment that are both carried have the same provider.
pub same_provider :
    (b c : DispatchOffer) (ws : List ShipmentAssignment)
    → IsUnique assigned_shipment ws
    → b.shipment_id ≡ c.shipment_id
    → exists (carries b) ws ≡ true
    → exists (carries c) ws ≡ true
    → b.provider_id ≡ c.provider_id
same_provider b c [] u s eb ec = absurd (ground arith)
same_provider b c (a ∷ ws) u s eb ec = elim (Bool-cases (a.shipment_id == b.shipment_id)) [
  | inl hit ↦
      let same = (eq_iff a.shipment_id b.shipment_id).0 hit in
      sym (first-carries b a ws u.0 same eb) ∙ first-carries c a ws u.0 (same ∙ s) ec
  | inr miss ↦
      let miss_c : (a.shipment_id == c.shipment_id) ≡ false =
        ap (λ k. a.shipment_id == k) (sym s) ∙ miss in
      same_provider b c ws u.1 s (ground arith) (ground arith)
]
