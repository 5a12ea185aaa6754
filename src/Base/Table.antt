-- ===== src/Base/Table.antt =====
-- A database table as a list of rows, the newest first, and the queries as list functions.
use oyana_backend.Base.{
  ◌≡◌, refl, ◌||◌, Bool, true, false, Option, none, some, List, [], ◌∷◌, arith, if◌then◌else◌,
  Bool-cases, inl, inr, subst,
}

module _ {ℓ} {A : Type ℓ} where
  -- `findUnique`, `findFirst`: the first row that meets the condition
  unfoldable pub find_first : (A → Bool) → List A → Option A
  find_first p [] = none
  find_first p (x ∷ xs) = let rest = find_first p xs in if p x then some x else rest

  -- `findFirst`, the oldest first
  unfoldable pub find_last : (A → Bool) → List A → Option A
  find_last p [] = none
  find_last p (x ∷ xs) = elim (find_last p xs) [
    | some y ↦ some y
    | none ↦ if p x then some x else none
  ]

  -- `findMany` with a `where`
  unfoldable pub find_many : (A → Bool) → List A → List A
  find_many p [] = []
  find_many p (x ∷ xs) = let rest = find_many p xs in if p x then x ∷ rest else rest

  -- `updateMany`: every row that meets the condition is replaced
  unfoldable pub update_where : (A → Bool) → (A → A) → List A → List A
  update_where p f [] = []
  update_where p f (x ∷ xs) = (if p x then f x else x) ∷ update_where p f xs

  abbrev pub exists : (A → Bool) → List A → Bool
  exists p [] = false
  exists p (x ∷ xs) = if p x then true else exists p xs

module _ {ℓ κ} {A : Type ℓ} where
  abbrev pub All : (A → Type κ) → List A → Type κ
  All P [] = Unit
  All P (x ∷ xs) = P x × All P xs

  pub All-map : {P Q : A → Type κ} (f : (x : A) → P x → Q x) (xs : List A) → All P xs → All Q xs
  All-map f [] h = tt
  All-map f (x ∷ xs) h = (f x h.0, All-map f xs h.1)

  -- What holds of every row holds of the row that a query finds.
  pub find_first-All :
      (P : A → Type κ) (p : A → Bool) (xs : List A) (a : A)
      → All P xs
      → find_first p xs ≡ some a
      → P a
  unfolding find_first
  find_first-All P p [] a h e = absurd (ground arith)
  find_first-All P p (x ∷ xs) a h e = elim (Bool-cases (p x)) [
    | inl hit ↦ let same : x ≡ a = ground arith in subst P same h.0
    | inr miss ↦ find_first-All P p xs a h.1 (rw miss at e)
  ]

  pub update_where-All :
      (P : A → Type κ) (p : A → Bool) (f : A → A) (xs : List A)
      → ((x : A) → P x → p x ≡ true → P (f x))
      → All P xs
      → All P (update_where p f xs)
  unfolding update_where
  update_where-All P p f [] k h = tt
  update_where-All P p f (x ∷ xs) k h = (
    elim (Bool-cases (p x)) [ inl hit ↦ rw hit (k x h.0 hit) | inr miss ↦ rw miss h.0 ],
    update_where-All P p f xs k h.1,
  )

module _ {ℓ} {A : Type ℓ} where
  -- The row that a query finds meets its condition.
  pub find_first-holds :
      (p : A → Bool) (xs : List A) (a : A) → find_first p xs ≡ some a → p a ≡ true
  unfolding find_first
  find_first-holds p [] a e = ground arith
  find_first-holds p (x ∷ xs) a e = ground (arith, find_first-holds p xs a)

  -- A query finds nothing exactly where no row meets its condition.
  pub exists-none : (p : A → Bool) (xs : List A) → find_first p xs ≡ none → exists p xs ≡ false
  unfolding find_first
  exists-none p [] h = refl
  exists-none p (x ∷ xs) h = ground (arith, exists-none p xs)

  pub exists-some :
      (p : A → Bool) (xs : List A) (a : A) → find_first p xs ≡ some a → exists p xs ≡ true
  unfolding find_first
  exists-some p [] a h = absurd (ground arith)
  exists-some p (x ∷ xs) a h = ground (arith, exists-some p xs a)

  pub exists-or :
      (p q : A → Bool) (xs : List A) → exists (λ x. p x || q x) xs ≡ exists p xs || exists q xs
  exists-or p q [] = refl
  exists-or p q (x ∷ xs) = ground (arith, exists-or p q xs)

  -- A row that was found is found again after it was changed.
  pub find_first-update_where :
      (p : A → Bool) (f : A → A) (xs : List A) (a : A)
      → ((x : A) → p (f x) ≡ p x)
      → find_first p xs ≡ some a
      → find_first p (update_where p f xs) ≡ some (f a)
  unfolding find_first update_where
  find_first-update_where p f [] a same h = absurd (ground arith)
  find_first-update_where p f (x ∷ xs) a same h = elim (Bool-cases (p x)) [
    | inl hit ↦ let is_a : x ≡ a = ground arith in rw (hit, same x, hit, is_a) refl
    | inr miss ↦ rw (miss, miss) (find_first-update_where p f xs a same (rw miss at h))
  ]

  -- Where the row that a query finds meets a condition, some row does.
  pub found-exists_other :
      (q p : A → Bool) (xs : List A) (a : A)
      → find_first q xs ≡ some a
      → p a ≡ true
      → exists p xs ≡ true
  unfolding find_first
  found-exists_other q p [] a e h = absurd (ground arith)
  found-exists_other q p (x ∷ xs) a e h = elim (Bool-cases (q x)) [
    | inl hit ↦ let is_a : x ≡ a = ground arith in rw (is_a, h) refl
    | inr miss ↦ let later = found-exists_other q p xs a (rw miss at e) h in ground arith
  ]

  -- An update of no row.
  pub update_where-none :
      (p : A → Bool) (f : A → A) (xs : List A) → exists p xs ≡ false → update_where p f xs ≡ xs
  unfolding update_where
  update_where-none p f [] e = refl
  update_where-none p f (x ∷ xs) e = elim (Bool-cases (p x)) [
    | inl hit ↦ absurd (ground arith)
    | inr miss ↦ rw (miss, update_where-none p f xs (rw miss at e)) refl
  ]
