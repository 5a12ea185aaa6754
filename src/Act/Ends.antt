-- ===== src/Act/Ends.antt =====
-- What holds of the value and the database where a method returned, and of the database where it
-- threw.
use oyana_backend.Base.{subst, ◌≡◌, refl}
use oyana_backend.Db.{Db}
use oyana_backend.Act.{
  Error, Result, ok, err, World, Act, continue, ◌>>=◌, recover, try_catch, commit, transaction,
}
use oyana_backend.Act.Keeps.{Keeps}

-- What holds if the call returned.
abbrev pub Ends : {A : Type 0} → (A → Db → Type 0) → Result A × World → Type 0
Ends Q (ok a, w) = Q a w.db
Ends Q (err e, w) = Unit {0}

module _ {A B : Type 0} (Q : B → Db → Type 0) where
  continue-Ends :
      (R : A → Db → Type 0) (x : Result A × World) (f : A → Act B)
      → Ends R x
      → ((a : A) (w : World) → R a w.db → Ends Q (f a w))
      → Ends Q (continue x.0 f x.1)
  continue-Ends R (ok a, w) f h k = k a w h
  continue-Ends R (err e, w) f h k = tt

  pub Ends-bind :
      (R : A → Db → Type 0) (m : Act A) (f : A → Act B) (w : World)
      → Ends R (m w)
      → ((a : A) (w' : World) → R a w'.db → Ends Q (f a w'))
      → Ends Q ((m >>= f) w)
  unfolding ◌>>=◌
  Ends-bind R m f w h k = continue-Ends R (m w) f h k

module _ {A : Type 0} (Q R : A → Db → Type 0) where
  pub Ends-map : (x : Result A × World) → ((a : A) (d : Db) → Q a d → R a d) → Ends Q x → Ends R x
  Ends-map (ok a, w) k h = k a w.db h
  Ends-map (err e, w) k h = tt

module _ {A : Type 0} (P : Db → Type 0) where
  Ends-of : (x : Result A × World) → P x.1.db → Ends (λ a d. P d) x
  Ends-of (ok a, w) h = h
  Ends-of (err e, w) h = tt

  pub Ends-Keeps : (m : Act A) (w : World) → Keeps P m → P w.db → Ends (λ a d. P d) (m w)
  Ends-Keeps m w k h = Ends-of (m w) (k.at w h)

module _ {A : Type 0} (Q : A → Db → Type 0) where
  recover-Ends :
      (x : Result A × World) (handler : Error → Act A)
      → Ends Q x
      → ((e : Error) (w : World) → Ends Q (handler e w))
      → Ends Q (recover x.0 handler x.1)
  recover-Ends (ok a, w) handler h k = h
  recover-Ends (err e, w) handler h k = k e w

  pub Ends-try_catch :
      (m : Act A) (handler : Error → Act A) (w : World)
      → Ends Q (m w)
      → ((e : Error) (w' : World) → Ends Q (handler e w'))
      → Ends Q (try_catch m handler w)
  unfolding try_catch
  Ends-try_catch m handler w h k = recover-Ends (m w) handler h k

module _ {A : Type 0} where
  pub Ends-any : (x : Result A × World) → Ends (λ a d. Unit {0}) x
  Ends-any (ok a, w) = tt
  Ends-any (err e, w) = tt

-- What holds of a value that was returned.
pub Ends-ok :
    {A : Type 0} (Q : A → Db → Type 0) (x : Result A × World) (a : A) (w : World)
    → Ends Q x
    → x ≡ (ok a, w)
    → Q a w.db
Ends-ok Q x a w h e = subst (Ends Q) e h

-- Either it returned, or the database is as it was.
abbrev pub Whole : {A : Type 0} → (A → Db → Type 0) → Db → Result A × World → Type 0
Whole Q before (ok a, w) = Q a w.db
Whole Q before (err e, w) = w.db ≡ before

module _ {A : Type 0} (Q : A → Db → Type 0) where
  commit-Whole :
      (x : Result A × World) (before : Db) → Ends Q x → Whole Q before (commit x.0 before x.1)
  commit-Whole (ok a, w) before h = h
  commit-Whole (err e, w) before h = refl

  pub transaction-Whole : (m : Act A) (w : World) → Ends Q (m w) → Whole Q w.db (transaction m w)
  unfolding transaction
  transaction-Whole m w h = commit-Whole (m w) w.db h

module _ {A B : Type 0} (R : A → Db → Type 0) (Q : B → Db → Type 0) where
  continue-Whole :
      (before : Db) (x : Result A × World) (f : A → Act B)
      → Whole R before x
      → ((a : A) (w : World) → R a w.db → Whole Q before (f a w))
      → Whole Q before (continue x.0 f x.1)
  continue-Whole before (ok a, w) f h k = k a w h
  continue-Whole before (err e, w) f h k = h

  pub Whole-bind :
      (before : Db) (m : Act A) (f : A → Act B) (w : World)
      → Whole R before (m w)
      → ((a : A) (w' : World) → R a w'.db → Whole Q before (f a w'))
      → Whole Q before ((m >>= f) w)
  unfolding ◌>>=◌
  Whole-bind before m f w h k = continue-Whole before (m w) f h k
