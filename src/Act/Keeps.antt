-- ===== src/Act/Keeps.antt =====
-- Invariants of the database under service methods, one rule for each way to build a method.
use oyana_backend.Base.{ℕ, String, Bool, true, false, Option, none, some, if◌then◌else◌}
use oyana_backend.Db.{Db, Table}
use oyana_backend.Act.{
  Error, Result, ok, err, World, Act, pure, throw, lift, or_throw, throw_if, ask, continue, ◌>>=◌,
  recover, try_catch, commit, transaction, proceed, try_else, find, find_all, find_oldest, view,
  publish,
}

-- The method keeps `P`, whether it returns or throws.
pub record Keeps {A : Type 0} (P : Db → Type 0) (m : Act A) : Type 0 where
  pub at : (w : World) → P w.db → P (m w).1.db

-- By how a call ended: `Q` of the value returned, or `P` after a throw.
abbrev pub Post : {A : Type 0} → (Db → Type 0) → (A → Db → Type 0) → Result A → Db → Type 0
Post P Q (ok a) d = Q a d
Post P Q (err e) d = P d

pub record Triple {A : Type 0} (P : Db → Type 0) (Q : A → Db → Type 0) (m : Act A) : Type 0 where
  pub at : (w : World) → P w.db → Post P Q (m w).0 (m w).1.db

module _ {A : Type 0} {P : Db → Type 0} where
  pub Keeps-pure : (a : A) → Keeps P (pure a)
  Keeps-pure a = record { at = λ w h. h }

  pub Keeps-throw : (e : Error) → Keeps P (throw {A = A} e)
  Keeps-throw e = record { at = λ w h. h }

  pub Keeps-lift : (r : Result A) → Keeps P (lift r)
  Keeps-lift r = record { at = λ w h. h }

  pub Keeps-ask : (f : ℕ → Result A) → Keeps P (ask f)
  unfolding ask
  Keeps-ask f = record { at = λ w h. h }

  pub Keeps-or_throw : (o : Option A) (e : Error) → Keeps P (or_throw o e)
  Keeps-or_throw none e = Keeps-throw e
  Keeps-or_throw (some a) e = Keeps-pure a

  pub Keeps-if : (b : Bool) (m n : Act A) → Keeps P m → Keeps P n → Keeps P (if b then m else n)
  Keeps-if true m n km kn = km
  Keeps-if false m n km kn = kn

  -- a case distinction on an option, with the value at hand
  pub Keeps-option :
      {R : Type 0} (o : Option R) (m : Act A) (f : R → Act A)
      → Keeps P m
      → ((r : R) → Keeps P (f r))
      → Keeps P (elim o [ none ↦ m | some r ↦ f r ])
  Keeps-option none m f km kf = km
  Keeps-option (some r) m f km kf = kf r

  -- A `throw` undoes the writes, so only a body that returns matters.
  commit-keeps :
      (Q : A → Db → Type 0) (weaken : (a : A) (d : Db) → Q a d → P d) (r : Result A) (before : Db)
      (w : World)
      → P before
      → Post P Q r w.db
      → P (commit r before w).1.db
  commit-keeps Q weaken (ok a) before w h k = weaken a w.db k
  commit-keeps Q weaken (err e) before w h k = h

  pub Keeps-transaction : (m : Act A) → Keeps P m → Keeps P (transaction m)
  unfolding transaction
  Keeps-transaction m km = record {
    at = λ w h.
        let (r, w') = m w in
        commit-keeps (λ a d. P d) (λ a d k. k) r w.db w' h (same r w'.db (km.at w h));
  }
    where
      same : (r : Result A) (d : Db) → P d → Post P (λ a d. P d) r d
      same (ok a) d k = k
      same (err e) d k = k

  recover-keeps :
      (r : Result A) (handler : Error → Act A)
      → ((e : Error) → Keeps P (handler e))
      → (w : World) → P w.db
      → P (recover r handler w).1.db
  recover-keeps (ok a) handler kh w h = h
  recover-keeps (err e) handler kh w h = (kh e).at w h

  pub Keeps-try_catch :
      (m : Act A) (handler : Error → Act A)
      → Keeps P m
      → ((e : Error) → Keeps P (handler e))
      → Keeps P (try_catch m handler)
  unfolding try_catch
  Keeps-try_catch m handler km kh = record {
    at = λ w h. let (r, w') = m w in recover-keeps r handler kh w' (km.at w h);
  }

  pub Keeps-find : (t : Table A) (p : A → Bool) → Keeps P (find t p)
  unfolding find
  Keeps-find t p = record { at = λ w h. h }

module _ {A : Type 0} {P : Db → Type 0} where
  pub Keeps-find_all : (t : Table A) (p : A → Bool) → Keeps P (find_all t p)
  unfolding find_all
  Keeps-find_all t p = record { at = λ w h. h }

  pub Keeps-find_oldest : (t : Table A) (p : A → Bool) → Keeps P (find_oldest t p)
  unfolding find_oldest
  Keeps-find_oldest t p = record { at = λ w h. h }

  pub Keeps-view : (f : Db → A) → Keeps P (view f)
  unfolding view
  Keeps-view f = record { at = λ w h. h }

module _ {P : Db → Type 0} where
  pub Keeps-publish : (topic id : String) → Keeps P (publish topic id)
  unfolding publish
  Keeps-publish topic id = record { at = λ w h. h }

  pub Keeps-throw_if : (b : Bool) (e : Error) → Keeps P (throw_if b e)
  Keeps-throw_if true e = Keeps-throw e
  Keeps-throw_if false e = Keeps-pure tt

module _ {A B : Type 0} (P : Db → Type 0) where
  continue-post :
      (Q : A → Db → Type 0) (r : Result A) (f : A → Act B)
      → ((a : A) (w : World) → Q a w.db → P (f a w).1.db)
      → (w : World) → Post P Q r w.db
      → P (continue r f w).1.db
  continue-post Q (ok a) f kf w h = kf a w h
  continue-post Q (err e) f kf w h = h

module _ {A B : Type 0} {P : Db → Type 0} where
  -- The rest of the method may use what the first part promised.
  pub Keeps-bind_post :
      (Q : A → Db → Type 0) (m : Act A) (f : A → Act B)
      → Triple P Q m
      → ((a : A) (w : World) → Q a w.db → P (f a w).1.db)
      → Keeps P (m >>= f)
  unfolding ◌>>=◌
  Keeps-bind_post Q m f km kf = record {
    at = λ w h. let (r, w') = m w in continue-post P Q r f kf w' (km.at w h);
  }

  pub continue-keeps :
      (r : Result A) (f : A → Act B)
      → ((a : A) → Keeps P (f a))
      → (w : World) → P w.db
      → P (continue r f w).1.db
  continue-keeps (ok a) f kf w h = (kf a).at w h
  continue-keeps (err e) f kf w h = h

  pub Keeps-bind :
      (m : Act A) (f : A → Act B) → Keeps P m → ((a : A) → Keeps P (f a)) → Keeps P (m >>= f)
  unfolding ◌>>=◌
  Keeps-bind m f km kf = record {
    at = λ w h. let (r, w') = m w in continue-keeps r f kf w' (km.at w h);
  }

  proceed-keeps :
      (r : Result A) (f : A → Act B) (handler : Error → Act B)
      → ((a : A) → Keeps P (f a))
      → ((e : Error) → Keeps P (handler e))
      → (w : World) → P w.db
      → P (proceed r f handler w).1.db
  proceed-keeps (ok a) f handler kf kh w h = (kf a).at w h
  proceed-keeps (err e) f handler kf kh w h = (kh e).at w h

  pub Keeps-try_else :
      (m : Act A) (f : A → Act B) (handler : Error → Act B)
      → Keeps P m
      → ((a : A) → Keeps P (f a))
      → ((e : Error) → Keeps P (handler e))
      → Keeps P (try_else m f handler)
  unfolding try_else
  Keeps-try_else m f handler km kf kh = record {
    at = λ w h. let (r, w') = m w in proceed-keeps r f handler kf kh w' (km.at w h);
  }

pub ruleset keeps_rules = (
  Keeps-pure, Keeps-throw, Keeps-lift, Keeps-ask, Keeps-or_throw, Keeps-if, Keeps-throw_if,
  Keeps-transaction, Keeps-try_catch, Keeps-find, Keeps-bind, Keeps-try_else, Keeps-find_all,
  Keeps-find_oldest, Keeps-view, Keeps-publish, Keeps-option,
)
