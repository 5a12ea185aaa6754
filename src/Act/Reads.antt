-- ===== src/Act/Reads.antt =====
-- Methods that leave the world as it was, at one world.
use oyana_backend.Base.{Bool, true, false, ◌≡◌, refl, Option, none, some, if◌then◌else◌}
use oyana_backend.Base.Table.{find_first}
use oyana_backend.Act.{
  Error, Result, ok, err, World, Act, pure, throw, or_throw, throw_if, continue, ◌>>=◌, find,
}
use oyana_backend.Db.{Table}

pub record Reads {A : Type 0} (m : Act A) (w : World) : Type 0 where
  pub same : (m w).1 ≡ w

module _ {A B : Type 0} where
  continue-Reads :
      (x : Result A × World) (f : A → Act B) (w : World)
      → x.1 ≡ w
      → ((a : A) → Reads (f a) w)
      → (continue x.0 f x.1).1 ≡ w
  continue-Reads (ok a, w') f w h k = rw h ((k a).same)
  continue-Reads (err e, w') f w h k = h

  pub Reads-bind :
      (m : Act A) (f : A → Act B) (w : World)
      → Reads m w
      → ((a : A) → Reads (f a) w)
      → Reads (m >>= f) w
  unfolding ◌>>=◌
  Reads-bind m f w h k = record { same = continue-Reads (m w) f w h.same k }

  -- What holds of the world after a method that only reads, and of the one before if it throws.
  continue-Reads_then :
      (G : World → Type 0) (x : Result A × World) (f : A → Act B) (w : World)
      → x.1 ≡ w
      → G w
      → ((a : A) → G (f a w).1)
      → G (continue x.0 f x.1).1
  continue-Reads_then G (ok a, w') f w h g k = rw h (k a)
  continue-Reads_then G (err e, w') f w h g k = rw h g

  pub Reads_then :
      (G : World → Type 0) (m : Act A) (f : A → Act B) (w : World)
      → Reads m w
      → G w
      → ((a : A) → G (f a w).1)
      → G ((m >>= f) w).1
  unfolding ◌>>=◌
  Reads_then G m f w h g k = continue-Reads_then G (m w) f w h.same g k

module _ {A R : Type 0} where
  pub Reads-find_bind :
      (t : Table R) (p : R → Bool) (f : Option R → Act A) (w : World)
      → Reads (f (find_first p (t.rows w.db))) w
      → Reads (find t p >>= f) w
  unfolding find ◌>>=◌
  Reads-find_bind t p f w h = record { same = h.same }

  pub Reads-option :
      (o : Option R) (m : Act A) (f : R → Act A) (w : World)
      → Reads m w
      → ((r : R) → Reads (f r) w)
      → Reads (elim o [ none ↦ m | some r ↦ f r ]) w
  Reads-option none m f w h k = h
  Reads-option (some r) m f w h k = k r

module _ {A : Type 0} where
  pub Reads-pure : (a : A) (w : World) → Reads (pure a) w
  Reads-pure a w = record { same = refl }

  pub Reads-throw : (e : Error) (w : World) → Reads (throw {A = A} e) w
  Reads-throw e w = record { same = refl }

  pub Reads-or_throw : (o : Option A) (e : Error) (w : World) → Reads (or_throw o e) w
  Reads-or_throw none e w = record { same = refl }
  Reads-or_throw (some a) e w = record { same = refl }

  pub Reads-find : (t : Table A) (p : A → Bool) (w : World) → Reads (find t p) w
  unfolding find
  Reads-find t p w = record { same = refl }

  pub Reads-if :
      (b : Bool) (m n : Act A) (w : World) → Reads m w → Reads n w → Reads (if b then m else n) w
  Reads-if true m n w h k = h
  Reads-if false m n w h k = k

pub Reads-throw_if : (b : Bool) (e : Error) (w : World) → Reads (throw_if b e) w
Reads-throw_if true e w = record { same = refl }
Reads-throw_if false e w = record { same = refl }
