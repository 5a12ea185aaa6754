-- ===== src/Act/Outcome.antt =====
-- Running a method step by step at one world: what holds if it returns, and what if it throws. Each
-- rule hands the rest of the method what the step found out.
use oyana_backend.Base.{
  ℕ, ◌+◌, String, List, Bool, true, false, ◌≡◌, refl, Option, none, some, ◌∷◌, if◌then◌else◌, ⊤,
  Bool-cases, inl, inr,
}
use oyana_backend.Base.Table.{find_first, find_many, update_where, exists}
use oyana_backend.Db.{Db, Table}
use oyana_backend.Act.{
  Error, Result, ok, err, World, Act, pure, throw, or_throw, throw_if, continue, ◌>>=◌, commit,
  transaction, find, create, update, update_many, update_count, update_found, put_rows, ask,
  publish, find_all,
}
use oyana_backend.Act.Keeps.{Keeps, Post}

pub record Outcome {A : Type 0} (P : Db → Type 0) (Q : A → Db → Type 0) (m : Act A) (w : World)
    : Type 0 where
  pub at : Post P Q (m w).0 (m w).1.db

-- no matter what, as inside a transaction
abbrev pub Anything : Db → Type 0
Anything d = Unit

module _ {A : Type 0} {P : Db → Type 0} {Q : A → Db → Type 0} where
  pub Outcome-pure : {a : A} {w : World} → Q a w.db → Outcome P Q (pure a) w
  Outcome-pure h = record { at = h }

  pub Outcome-throw : {e : Error} {w : World} → P w.db → Outcome P Q (throw e) w
  Outcome-throw h = record { at = h }

  pub Outcome-if :
      {b : Bool} {m n : Act A} {w : World}
      → (b ≡ true → Outcome P Q m w)
      → (b ≡ false → Outcome P Q n w)
      → Outcome P Q (if b then m else n) w
  Outcome-if {b} {m} {n} {w} h k = elim (Bool-cases b) [ inl e ↦ rw e (h e) | inr e ↦ rw e (k e) ]

  pub Outcome-throw_if_bind :
      (b : Bool) (e : Error) (f : ⊤ → Act A) {w : World}
      → P w.db
      → (b ≡ false → Outcome P Q (f tt) w)
      → Outcome P Q (throw_if b e >>= f) w
  unfolding ◌>>=◌
  Outcome-throw_if_bind true e f h k = record { at = h }
  Outcome-throw_if_bind false e f h k = record { at = (k refl).at }

module _ {A B : Type 0} {P : Db → Type 0} {Q : B → Db → Type 0} where
  pub Outcome-find_bind :
      (t : Table A) (p : A → Bool) (f : Option A → Act B) {w : World}
      → Outcome P Q (f (find_first p (t.rows w.db))) w
      → Outcome P Q (find t p >>= f) w
  unfolding ◌>>=◌ find
  Outcome-find_bind t p f h = record { at = h.at }

  pub Outcome-or_throw_bind :
      (o : Option A) (e : Error) (f : A → Act B) {w : World}
      → P w.db
      → ((a : A) → o ≡ some a → Outcome P Q (f a) w)
      → Outcome P Q (or_throw o e >>= f) w
  unfolding ◌>>=◌
  Outcome-or_throw_bind none e f h k = record { at = h }
  Outcome-or_throw_bind (some a) e f h k = record { at = (k a refl).at }

  pub Outcome-option :
      (o : Option A) (m : Act B) (f : A → Act B) {w : World}
      → (o ≡ none → Outcome P Q m w)
      → ((a : A) → o ≡ some a → Outcome P Q (f a) w)
      → Outcome P Q (elim o [ none ↦ m | some a ↦ f a ]) w
  Outcome-option none m f h k = h refl
  Outcome-option (some a) m f h k = k a refl

  pub Outcome-create_bind :
      (t : Table A) (clashes : A → Bool) (row : A) (f : A → Act B) {w : World}
      → P w.db
      → (exists clashes (t.rows w.db) ≡ false
          → Outcome P Q (f row) (put_rows t (row ∷ t.rows w.db) w))
      → Outcome P Q (create t clashes row >>= f) w
  unfolding ◌>>=◌ create
  Outcome-create_bind t clashes row f {w} h k = record {
    at = elim (Bool-cases (exists clashes (t.rows w.db))) [
      | inl taken ↦ rw taken h
      | inr new ↦ rw new ((k new).at)
    ];
  }

  update_found-Outcome :
      (t : Table A) (p : A → Bool) (g : A → A) (f : A → Act B) (w : World) (o : Option A)
      → P w.db
      → ((r : A)
          → o ≡ some r
          → Outcome P Q (f (g r)) (put_rows t (update_where p g (t.rows w.db)) w))
      → Outcome P Q (update_found t o p g >>= f) w
  unfolding ◌>>=◌
  update_found-Outcome t p g f w none h k = record { at = h }
  update_found-Outcome t p g f w (some r) h k = record { at = (k r refl).at }

  pub Outcome-update_bind :
      (t : Table A) (p : A → Bool) (g : A → A) (f : A → Act B) {w : World}
      → P w.db
      → ((r : A)
          → find_first p (t.rows w.db) ≡ some r
          → Outcome P Q (f (g r)) (put_rows t (update_where p g (t.rows w.db)) w))
      → Outcome P Q (update t p g >>= f) w
  unfolding update ◌>>=◌
  Outcome-update_bind t p g f {w} h k = record {
    at = (update_found-Outcome t p g f w (find_first p (t.rows w.db)) h k).at;
  }

  pub Outcome-update_many_bind :
      (t : Table A) (p : A → Bool) (g : A → A) (f : ⊤ → Act B) {w : World}
      → Outcome P Q (f tt) (put_rows t (update_where p g (t.rows w.db)) w)
      → Outcome P Q (update_many t p g >>= f) w
  unfolding ◌>>=◌ update_many
  Outcome-update_many_bind t p g f h = record { at = h.at }

  pub Outcome-update_count_bind :
      (t : Table A) (p : A → Bool) (g : A → A) (f : Bool → Act B) {w : World}
      → Outcome P Q (f (exists p (t.rows w.db))) (put_rows t (update_where p g (t.rows w.db)) w)
      → Outcome P Q (update_count t p g >>= f) w
  unfolding ◌>>=◌ update_count
  Outcome-update_count_bind t p g f h = record { at = h.at }

  continue-Outcome :
      (R : A → Db → Type 0) (r : Result A) (w : World) (f : A → Act B)
      → Post P R r w.db
      → ((a : A) (w' : World) → R a w'.db → Outcome P Q (f a) w')
      → Outcome P Q (continue r f) w
  continue-Outcome R (ok a) w f h k = k a w h
  continue-Outcome R (err e) w f h k = record { at = h }

  -- a part of which only the outcome is known
  pub Outcome-bind :
      (R : A → Db → Type 0) (m : Act A) (f : A → Act B) {w : World}
      → Outcome P R m w
      → ((a : A) (w' : World) → R a w'.db → Outcome P Q (f a) w')
      → Outcome P Q (m >>= f) w
  unfolding ◌>>=◌
  Outcome-bind R m f {w} h k = record { at = (continue-Outcome R (m w).0 (m w).1 f h.at k).at }

module _ {A : Type 0} (P : Db → Type 0) where
  Post-same : (r : Result A) (d : Db) → P d → Post P (λ a d'. P d') r d
  Post-same (ok a) d h = h
  Post-same (err e) d h = h

  same-Post : (r : Result A) (d : Db) → Post P (λ a d'. P d') r d → P d
  same-Post (ok a) d h = h
  same-Post (err e) d h = h

  commit-same :
      (r : Result A) (before : Db) (w : World)
      → P before
      → Post Anything (λ a d. P d) r w.db
      → P (commit r before w).1.db
  commit-same (ok a) before w h k = k
  commit-same (err e) before w h k = h

module _ {A : Type 0} {P : Db → Type 0} where
  pub Outcome-Keeps : {m : Act A} {w : World} → Keeps P m → P w.db → Outcome P (λ a d. P d) m w
  Outcome-Keeps {m} {w} k h = record { at = Post-same P (m w).0 _ (k.at w h) }

  pub Keeps-Outcome : {m : Act A} → ((w : World) → P w.db → Outcome P (λ a d. P d) m w) → Keeps P m
  Keeps-Outcome {m} k = record { at = λ w h. same-Post P (m w).0 _ (k w h).at }

  -- A throw undoes what was written.
  pub Keeps-transaction-Outcome :
      {m : Act A}
      → ((w : World) → P w.db → Outcome Anything (λ a d. P d) m w)
      → Keeps P (transaction m)
  unfolding transaction
  Keeps-transaction-Outcome {m} k = record {
    at = λ w h. commit-same P (m w).0 w.db (m w).1 h (k w h).at;
  }

module _ {A B : Type 0} {P : Db → Type 0} {Q : B → Db → Type 0} where
  pub Outcome-Keeps_bind :
      (m : Act A) (f : A → Act B) {w : World}
      → Keeps P m
      → P w.db
      → ((a : A) (w' : World) → P w'.db → Outcome P Q (f a) w')
      → Outcome P Q (m >>= f) w
  Outcome-Keeps_bind m f k h rest = Outcome-bind (λ a d. P d) m f (Outcome-Keeps k h) rest

module _ {A : Type 0} (P : Db → Type 0) (Q : A → Db → Type 0) where
  forget : (r : Result A) (d : Db) → Post P Q r d → Post Anything Q r d
  forget (ok a) d h = h
  forget (err e) d h = tt

module _ {A : Type 0} {P : Db → Type 0} {Q : A → Db → Type 0} where
  -- inside a transaction, what holds at a throw is not needed
  pub Outcome-forget : {m : Act A} {w : World} → Outcome P Q m w → Outcome Anything Q m w
  Outcome-forget {m} {w} h = record { at = forget P Q (m w).0 _ h.at }

module _ {A : Type 0} (P : Db → Type 0) (t : Table A) (p : A → Bool) (e : Error) where
  or_throw-Outcome :
      (o : Option A) (w : World)
      → P w.db
      → find_first p (t.rows w.db) ≡ o
      → Outcome P (λ r d. P d × (find_first p (t.rows d) ≡ some r)) (or_throw o e) w
  or_throw-Outcome none w h same = record { at = h }
  or_throw-Outcome (some r) w h same = record { at = (h, same) }

  -- a query and a throw where there is no row
  pub Outcome-find-or_throw :
      (w : World)
      → P w.db
      → Outcome P
          (λ r d. P d × (find_first p (t.rows d) ≡ some r))
          (find t p >>= λ o. or_throw o e)
          w
  Outcome-find-or_throw w h =
      Outcome-find_bind t p _ (or_throw-Outcome (find_first p (t.rows w.db)) w h refl)

module _ {A : Type 0} (Q : A → Db → Type 0) where
  commit-Outcome :
      (r : Result A) (before : Db) (w : World)
      → Post Anything Q r w.db
      → Post (λ d. d ≡ before) Q (commit r before w).0 (commit r before w).1.db
  commit-Outcome (ok a) before w h = h
  commit-Outcome (err e) before w h = refl

module _ {A : Type 0} {Q : A → Db → Type 0} where
  -- A transaction that throws leaves the database as it was.
  pub Outcome-transaction :
      {m : Act A} {w : World} → Outcome Anything Q m w → Outcome (λ d. d ≡ w.db) Q (transaction m) w
  unfolding transaction
  Outcome-transaction {m} {w} h = record { at = commit-Outcome Q (m w).0 w.db (m w).1 h.at }

module _ {A B : Type 0} {P : Db → Type 0} {Q : B → Db → Type 0} where
  -- an answer from outside, which leaves the database as it was
  pub Outcome-ask_bind :
      (g : ℕ → A) (f : A → Act B) {w : World}
      → ((a : A) → Outcome P Q (f a) (record w { asked = w.asked + 1 }))
      → Outcome P Q (ask (λ n. ok (g n)) >>= f) w
  unfolding ◌>>=◌ ask
  Outcome-ask_bind g f {w} h = record { at = (h (g w.asked)).at }

module _ {B : Type 0} {P : Db → Type 0} {Q : B → Db → Type 0} where
  pub Outcome-publish_bind :
      (topic id : String) (f : ⊤ → Act B) {w : World}
      → ((w' : World) → w'.db ≡ w.db → Outcome P Q (f tt) w')
      → Outcome P Q (publish topic id >>= f) w
  unfolding ◌>>=◌ publish
  Outcome-publish_bind topic id f {w} h = record {
    at =
        (h (record w { published = record { topic = topic; entity_id = id } ∷ w.published })
          refl).at;
  }

module _ {A B : Type 0} {P : Db → Type 0} {Q : B → Db → Type 0} where
  pub Outcome-find_all_bind :
      (t : Table A) (p : A → Bool) (f : List A → Act B) {w : World}
      → Outcome P Q (f (find_many p (t.rows w.db))) w
      → Outcome P Q (find_all t p >>= f) w
  unfolding ◌>>=◌ find_all
  Outcome-find_all_bind t p f h = record { at = h.at }
