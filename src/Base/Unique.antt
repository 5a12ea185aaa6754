-- ===== src/Base/Unique.antt =====
-- Tables with a unique column.
use oyana_backend.Base.{
  String, Bool, true, false, ◌≡◌, refl, some, List, [], ◌∷◌, arith, Bool-cases, inl, inr, ◌==◌,
  eq_iff, eq_refl, ap,
}
use oyana_backend.Base.Table.{find_first, update_where, exists, All}

module _ {A : Type 0} (key : A → String) where
  -- no two rows have the same key
  abbrev pub IsUnique : List A → Type 0
  IsUnique [] = Unit
  IsUnique (x ∷ xs) = (exists (λ y. key y == key x) xs ≡ false) × IsUnique xs

  pub exists-key_update :
      (k : String) (p : A → Bool) (f : A → A)
      → ((x : A) → key (f x) ≡ key x)
      → (xs : List A) → exists (λ y. key y == k) (update_where p f xs) ≡ exists (λ y. key y == k) xs
  unfolding update_where
  exists-key_update k p f same [] = refl
  exists-key_update k p f same (x ∷ xs) = elim (Bool-cases (p x)) [
    | inl hit ↦ rw (hit, same x, exists-key_update k p f same xs) refl
    | inr miss ↦ rw (miss, exists-key_update k p f same xs) refl
  ]

  pub update_where-IsUnique :
      (p : A → Bool) (f : A → A)
      → ((x : A) → key (f x) ≡ key x)
      → (xs : List A) → IsUnique xs
      → IsUnique (update_where p f xs)
  unfolding update_where
  update_where-IsUnique p f same [] h = tt
  update_where-IsUnique p f same (x ∷ xs) h = elim (Bool-cases (p x)) [
    | inl hit ↦ rw hit (
      rw (same x, exists-key_update (key x) p f same xs) h.0,
      update_where-IsUnique p f same xs h.1,
    )
    | inr miss ↦
        rw miss
          (rw (exists-key_update (key x) p f same xs) h.0, update_where-IsUnique p f same xs h.1)
  ]

  absent-All :
      (k : String) (r : A) (xs : List A)
      → exists (λ y. key y == k) xs ≡ false
      → key r ≡ k
      → All (λ x. (key x == key r) ≡ true → x ≡ r) xs
  absent-All k r [] h e = tt
  absent-All k r (x ∷ xs) h e = elim (Bool-cases (key x == k)) [
    | inl hit ↦ absurd (ground arith)
    | inr miss ↦
        (λ same. absurd (ground (arith, eq_iff (key x) k)), absent-All k r xs (rw miss at h) e)
  ]

  pub found-exists :
      (q : A → Bool) (r : A) (xs : List A)
      → find_first q xs ≡ some r
      → exists (λ y. key y == key r) xs ≡ true
  unfolding find_first
  found-exists q r [] e = absurd (ground arith)
  found-exists q r (x ∷ xs) e = elim (Bool-cases (q x)) [
    | inl hit ↦ let is_r : x ≡ r = ground arith in rw (ap key is_r, eq_refl (key r)) refl
    | inr miss ↦
        let later = found-exists q r xs (rw miss at e) in
        elim (Bool-cases (key x == key r)) [ inl same ↦ rw same refl | inr other ↦ rw other later ]
  ]

  -- Every row with the key of a row that a query finds is that row.
  pub IsUnique-found :
      (q : A → Bool) (r : A) (xs : List A)
      → IsUnique xs
      → find_first q xs ≡ some r
      → All (λ x. (key x == key r) ≡ true → x ≡ r) xs
  unfolding find_first
  IsUnique-found q r [] h e = tt
  IsUnique-found q r (x ∷ xs) h e = elim (Bool-cases (q x)) [
    | inl hit ↦
        let is_r : x ≡ r = ground arith in
        (λ same. is_r, absent-All (key x) r xs h.0 (rw is_r refl))
    | inr miss ↦
        let tail : find_first q xs ≡ some r = rw miss at e in
        (
          λ same.
              let is_key : key x ≡ key r = (eq_iff _ _).0 same in
              let there = found-exists q r xs tail in
              let nowhere = h.0 in
              absurd (ground (arith, ap (λ k. exists (λ y. key y == k) xs) is_key)),
          IsUnique-found q r xs h.1 tail,
        )
  ]
