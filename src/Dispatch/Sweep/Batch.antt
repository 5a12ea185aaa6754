-- ===== src/Dispatch/Sweep/Batch.antt =====
-- Which shipments `dispatchDueShipments` of src/dispatch/dispatch.service.ts takes up in one sweep: the
-- order and the limit of its query, against the guards of the dispatch of one shipment.
use oyana_backend.Base.{
  ℕ, zero, suc, ◌+◌, ◌≤◌, Bool, true, false, ◌≡◌, refl, sym, ap, ◌∙◌, subst, ◌⊎◌, inl, inr, Option,
  none, some, List, [], ◌∷◌, arith, Bool-cases,
}
use oyana_backend.Base.Table.{All, All-map, find_many}
use oyana_backend.Db.{Db}
use oyana_backend.Shipments.Schema.{Shipment}
use oyana_backend.Dispatch.Broadcast.{may_dispatch}
use oyana_backend.Dispatch.Sweep.{
  is_due, is_earlier, insert_due, sort_due, take_first, due_shipments, is_due-may_dispatch,
}
use oyana_backend.Outside.{Outside}

abbrev pub length : List Shipment → ℕ
length [] = 0
length (s ∷ ss) = length ss + 1

-- The list has the shipment.
abbrev pub Has : List Shipment → Shipment → Type 0
Has [] s = ⊥
Has (t ∷ ts) s = (t ≡ s) ⊎ Has ts s

-- A batch of at most `size` has the shipment, or is full of shipments that are not scheduled later.
abbrev pub IsServed : ℕ → List Shipment → Shipment → Type 0
IsServed size batch s =
    Has batch s
    ⊎ ((length batch ≡ size) × All (λ t. is_earlier s.scheduled_at t.scheduled_at ≡ false) batch)

abbrev IsSorted : List Shipment → Type 0
IsSorted [] = Unit
IsSorted (s ∷ ss) = All (λ t. is_earlier t.scheduled_at s.scheduled_at ≡ false) ss × IsSorted ss

earlier_asym : (a b : Option ℕ) → is_earlier a b ≡ true → is_earlier b a ≡ false
earlier_asym none b h = absurd (ground arith)
earlier_asym (some t) none h = refl
earlier_asym (some t) (some u) h = ground arith

earlier_trans :
    (u t s : Option ℕ) → is_earlier u t ≡ false → is_earlier s t ≡ true → is_earlier u s ≡ false
earlier_trans none t s h k = refl
earlier_trans (some u) none s h k = absurd (ground arith)
earlier_trans (some u) (some t) none h k = absurd (ground arith)
earlier_trans (some u) (some t) (some s) h k = ground arith

All-Has : (P : Shipment → Type 0) (ss : List Shipment) (s : Shipment) → All P ss → Has ss s → P s
All-Has P [] s h k = absurd k
All-Has P (t ∷ ts) s h (inl e) = subst P e h.0
All-Has P (t ∷ ts) s h (inr k) = All-Has P ts s h.1 k

insert_due-All :
    (P : Shipment → Type 0) (s : Shipment) (ss : List Shipment)
    → P s
    → All P ss
    → All P (insert_due s ss)
unfolding insert_due
insert_due-All P s [] p h = (p, tt)
insert_due-All P s (t ∷ ts) p h = elim (Bool-cases (is_earlier s.scheduled_at t.scheduled_at)) [
  | inl before ↦ rw before (p, h)
  | inr after ↦ rw after (h.0, insert_due-All P s ts p h.1)
]

sort_due-All : (P : Shipment → Type 0) (ss : List Shipment) → All P ss → All P (sort_due ss)
unfolding sort_due
sort_due-All P [] h = tt
sort_due-All P (s ∷ ss) h = insert_due-All P s (sort_due ss) h.0 (sort_due-All P ss h.1)

insert_due-Has :
    (t : Shipment) (ts : List Shipment) (s : Shipment)
    → (t ≡ s) ⊎ Has ts s
    → Has (insert_due t ts) s
unfolding insert_due
insert_due-Has t [] s h = h
insert_due-Has t (u ∷ us) s h = elim (Bool-cases (is_earlier t.scheduled_at u.scheduled_at)) [
  | inl before ↦ rw before h
  | inr after ↦ rw after (elim h [
    | inl e ↦ inr (insert_due-Has t us s (inl e))
    | inr k ↦ elim k [ inl e ↦ inl e | inr l ↦ inr (insert_due-Has t us s (inr l)) ]
  ])
]

sort_due-Has : (ss : List Shipment) (s : Shipment) → Has ss s → Has (sort_due ss) s
unfolding sort_due
sort_due-Has [] s h = h
sort_due-Has (t ∷ ts) s (inl e) = insert_due-Has t (sort_due ts) s (inl e)
sort_due-Has (t ∷ ts) s (inr k) = insert_due-Has t (sort_due ts) s (inr (sort_due-Has ts s k))

insert_due-IsSorted : (s : Shipment) (ss : List Shipment) → IsSorted ss → IsSorted (insert_due s ss)
unfolding insert_due
insert_due-IsSorted s [] h = (tt, tt)
insert_due-IsSorted s (t ∷ ts) h = elim (Bool-cases (is_earlier s.scheduled_at t.scheduled_at)) [
  | inl before ↦ rw before (
    (
      earlier_asym s.scheduled_at t.scheduled_at before,
      All-map (λ u k. earlier_trans u.scheduled_at t.scheduled_at s.scheduled_at k before) ts h.0,
    ),
    h,
  )
  | inr after ↦ rw after (insert_due-All _ s ts after h.0, insert_due-IsSorted s ts h.1)
]

sort_due-IsSorted : (ss : List Shipment) → IsSorted (sort_due ss)
unfolding sort_due
sort_due-IsSorted [] = tt
sort_due-IsSorted (s ∷ ss) = insert_due-IsSorted s (sort_due ss) (sort_due-IsSorted ss)

take_first-All :
    (P : Shipment → Type 0) (n : ℕ) (ss : List Shipment) → All P ss → All P (take_first n ss)
unfolding take_first
take_first-All P zero ss h = tt
take_first-All P (suc n) [] h = tt
take_first-All P (suc n) (s ∷ ss) h = (h.0, take_first-All P n ss h.1)

length-take_first : (n : ℕ) (ss : List Shipment) → length (take_first n ss) ≤ n
unfolding take_first
length-take_first zero ss = omega arith
length-take_first (suc n) [] = omega arith
length-take_first (suc n) (s ∷ ss) = omega (arith, length-take_first n ss)

take_first-IsServed :
    (n : ℕ) (ss : List Shipment) (s : Shipment)
    → IsSorted ss
    → Has ss s
    → IsServed n (take_first n ss) s
unfolding take_first
take_first-IsServed zero ss s o h = inr (refl, tt)
take_first-IsServed (suc n) [] s o h = absurd h
take_first-IsServed (suc n) (t ∷ ts) s o (inl e) = inl (inl e)
take_first-IsServed (suc n) (t ∷ ts) s o (inr k) = elim (take_first-IsServed n ts s o.1 k) [
  | inl there ↦ inl (inr there)
  | inr (full, earlier) ↦ inr (omega (arith, full), (All-Has _ ts s o.0 k, earlier))
]

find_many-All :
    (p : Shipment → Bool) (ss : List Shipment) → All (λ s. (p s ≡ true) × Has ss s) (find_many p ss)
unfolding find_many
find_many-All p [] = tt
find_many-All p (s ∷ ss) =
    let rest = All-map (λ t h. (h.0, inr h.1)) (find_many p ss) (find_many-All p ss) in
    elim (Bool-cases (p s)) [ inl hit ↦ rw hit ((hit, inl refl), rest) | inr miss ↦ rw miss rest ]

find_many-Has :
    (p : Shipment → Bool) (ss : List Shipment) (s : Shipment)
    → p s ≡ true
    → Has ss s
    → Has (find_many p ss) s
unfolding find_many
find_many-Has p [] s hit h = h
find_many-Has p (t ∷ ts) s hit (inl e) = rw (ap p e ∙ hit) (inl e)
find_many-Has p (t ∷ ts) s hit (inr k) = elim (Bool-cases (p t)) [
  | inl also ↦ rw also (inr (find_many-Has p ts s hit k))
  | inr miss ↦ rw miss (find_many-Has p ts s hit k)
]

All-intro :
    (P : Shipment → Type 0) (ss : List Shipment) → ((s : Shipment) → Has ss s → P s) → All P ss
All-intro P [] f = tt
All-intro P (s ∷ ss) f = (f s (inl refl), All-intro P ss λ t k. f t (inr k))

-- One sweep of the worker takes up at most as many shipments as a batch may have; each is in the table
-- and passes the guards of the dispatch of one shipment at the same time; and each shipment of the
-- table that passes them is taken up too, unless the batch is full of shipments that are not scheduled
-- later than it.
pub due_shipments-IsServed :
    (out : Outside) (time : ℕ) (d : Db)
    → (length (due_shipments out time d) ≤ out.dispatch_worker_batch_size)
      × All (λ t. (may_dispatch time t d ≡ true) × Has d.shipments t) (due_shipments out time d)
      × All
          (λ s.
            (may_dispatch time s d ≡ false)
            ⊎ IsServed out.dispatch_worker_batch_size (due_shipments out time d) s)
          d.shipments
unfolding due_shipments
due_shipments-IsServed out time d =
    let due = find_many (is_due time d) d.shipments in
    (
      length-take_first _ (sort_due due),
      take_first-All _ _ (sort_due due) (
          sort_due-All _ due (
            All-map (λ t h. (sym (is_due-may_dispatch time d t) ∙ h.0, h.1)) due
              (find_many-All (is_due time d) d.shipments))),
      All-intro _ d.shipments λ s k. elim (Bool-cases (is_due time d s)) [
        | inl hit ↦ inr (
            take_first-IsServed _ (sort_due due) s (sort_due-IsSorted due)
              (sort_due-Has due s (find_many-Has (is_due time d) d.shipments s hit k)))
        | inr miss ↦ inl (sym (is_due-may_dispatch time d s) ∙ miss)
      ],
    )
