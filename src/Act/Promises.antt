-- ===== src/Act/Promises.antt =====
-- Invariants with a promise about the value returned, or with a change of the invariant.
use oyana_backend.Base.{Bool, Option, ◌∷◌, Bool-cases, inl, inr}
use oyana_backend.Base.Table.{find_first, exists}
use oyana_backend.Db.{Db, Table}
use oyana_backend.Act.{
  Error, Result, ok, err, World, Act, throw, continue, ◌>>=◌, recover, try_catch, find, create,
}
use oyana_backend.Act.Keeps.{Keeps, Post, Triple, continue-keeps}

-- The same with a promise about the value that is returned.
module _ {A : Type 0} (P : Db → Type 0) (Q : A → Db → Type 0) where
  continue-Triple :
      {B : Type 0} (r : Result B) (f : B → Act A)
      → ((b : B) → Triple P Q (f b))
      → (w : World) → P w.db
      → Post P Q (continue r f w).0 (continue r f w).1.db
  continue-Triple (ok b) f tf w h = (tf b).at w h
  continue-Triple (err e) f tf w h = h

  pub Triple-bind :
      {B : Type 0} (m : Act B) (f : B → Act A)
      → Keeps P m
      → ((b : B) → Triple P Q (f b))
      → Triple P Q (m >>= f)
  unfolding ◌>>=◌
  Triple-bind m f km tf = record {
    at = λ w h. let (r, w') = m w in continue-Triple r f tf w' (km.at w h);
  }

  pub Triple-find_bind :
      {R : Type 0} (t : Table R) (p : R → Bool) (f : Option R → Act A)
      → ((w : World)
          → P w.db
          → let o = find_first p (t.rows w.db) in Post P Q (f o w).0 (f o w).1.db)
      → Triple P Q (find t p >>= f)
  unfolding ◌>>=◌ find
  Triple-find_bind t p f tf = record { at = tf }

  recover-Triple :
      (r : Result A) (handler : Error → Act A)
      → ((e : Error) → Triple P Q (handler e))
      → (w : World) → Post P Q r w.db
      → Post P Q (recover r handler w).0 (recover r handler w).1.db
  recover-Triple (ok a) handler th w h = h
  recover-Triple (err e) handler th w h = (th e).at w h

  pub Triple-try_catch :
      (m : Act A) (handler : Error → Act A)
      → Triple P Q m
      → ((e : Error) → Triple P Q (handler e))
      → Triple P Q (try_catch m handler)
  unfolding try_catch
  Triple-try_catch m handler tm th = record {
    at = λ w h. let (r, w') = m w in recover-Triple r handler th w' (tm.at w h);
  }

  pub Triple-throw : (e : Error) → Triple P Q (throw e)
  Triple-throw e = record { at = λ w h. h }

-- From `P` before to `R` after, on a throw too.
pub record Leads {A : Type 0} (P R : Db → Type 0) (m : Act A) : Type 0 where
  pub at : (w : World) → P w.db → R (m w).1.db

module _ {A B : Type 0} (P R : Db → Type 0) (weaken : (d : Db) → P d → R d) where
  continue-Leads :
      (r : Result A) (f : A → Act B)
      → ((a : A) → Leads P R (f a))
      → (w : World) → P w.db
      → R (continue r f w).1.db
  continue-Leads (ok a) f lf w h = (lf a).at w h
  continue-Leads (err e) f lf w h = weaken w.db h

  pub Leads-bind :
      (m : Act A) (f : A → Act B) → Keeps P m → ((a : A) → Leads P R (f a)) → Leads P R (m >>= f)
  unfolding ◌>>=◌
  Leads-bind m f km lf = record {
    at = λ w h. let (r, w') = m w in continue-Leads r f lf w' (km.at w h);
  }

module _ {A B : Type 0} (P R : Db → Type 0) where
  -- first the change, then what keeps the result
  pub Leads-then :
      (m : Act A) (f : A → Act B) → Leads P R m → ((a : A) → Keeps R (f a)) → Leads P R (m >>= f)
  unfolding ◌>>=◌
  Leads-then m f lm kf = record {
    at = λ w h. let (r, w') = m w in continue-keeps r f kf w' (lm.at w h);
  }

module _ {T B : Type 0} (P R : Db → Type 0) (weaken : (d : Db) → P d → R d) (t : Table T) where
  -- a creation, whose row the rest is given
  pub Leads-create :
      (clashes : T → Bool) (row : T) (f : T → Act B)
      → ((d : Db) → P d → P (t.write (row ∷ t.rows d) d))
      → Leads P R (f row)
      → Leads P R (create t clashes row >>= f)
  unfolding ◌>>=◌ create
  Leads-create clashes row f k lf = record {
    at = λ w h. elim (Bool-cases (exists clashes (t.rows w.db))) [
      | inl taken ↦ rw taken (weaken w.db h)
      | inr new ↦ rw new (lf.at _ (k w.db h))
    ];
  }

module _ {A : Type 0} {P : Db → Type 0} (Q : A → Db → Type 0)
    (weaken : (a : A) (d : Db) → Q a d → P d) where
  Post-weaken : (r : Result A) (d : Db) → Post P Q r d → P d
  Post-weaken (ok a) d h = weaken a d h
  Post-weaken (err e) d h = h

  -- A promise that implies `P`.
  pub Keeps-Triple : (m : Act A) → Triple P Q m → Keeps P m
  Keeps-Triple m tm = record { at = λ w h. let (r, w') = m w in Post-weaken r w'.db (tm.at w h) }
