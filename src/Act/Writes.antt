-- ===== src/Act/Writes.antt =====
-- Invariants under the queries and the writes of one table.
use oyana_backend.Base.{Bool, false, ◌≡◌, refl, Option, none, some, ◌∷◌, Bool-cases, inl, inr}
use oyana_backend.Base.Table.{find_first, update_where, exists}
use oyana_backend.Db.{Db, Table}
use oyana_backend.Act.{
  Error, World, Act, or_throw, ◌>>=◌, find, create, update, update_many, update_found, put_rows,
}
use oyana_backend.Act.Keeps.{Keeps}

module _ {R : Type 0} (P : Db → Type 0) (t : Table R) where
  update_found-keeps :
      (w : World) (o : Option R) (p : R → Bool) (f : R → R)
      → P w.db
      → P (put_rows t (update_where p f (t.rows w.db)) w).db
      → P (update_found t o p f w).1.db
  update_found-keeps w none p f h k = h
  update_found-keeps w (some r) p f h k = k

-- Writes that keep `P`.
module _ {R : Type 0} {P : Db → Type 0} (t : Table R) where
  -- An update that keeps `P`.
  pub Keeps-update_by :
      (p : R → Bool) (f : R → R)
      → ((d : Db) → P d → P (t.write (update_where p f (t.rows d)) d))
      → Keeps P (update t p f)
  unfolding update
  Keeps-update_by p f k = record {
    at = λ w h. update_found-keeps P t w (find_first p (t.rows w.db)) p f h (k w.db h);
  }

  pub Keeps-update_many_by :
      (p : R → Bool) (f : R → R)
      → ((d : Db) → P d → P (t.write (update_where p f (t.rows d)) d))
      → Keeps P (update_many t p f)
  unfolding update_many
  Keeps-update_many_by p f k = record { at = λ w h. k w.db h }

  -- A creation that keeps `P`.
  pub Keeps-create_by :
      (clashes : R → Bool) (row : R)
      → ((d : Db) → exists clashes (t.rows d) ≡ false → P d → P (t.write (row ∷ t.rows d) d))
      → Keeps P (create t clashes row)
  unfolding create
  Keeps-create_by clashes row k = record {
    at = λ w h. elim (Bool-cases (exists clashes (t.rows w.db))) [
      | inl taken ↦ rw (taken) h
      | inr new ↦ rw (new) (k w.db new h)
    ];
  }

module _ {R B : Type 0} (P : Db → Type 0) where
  row-keeps :
      (e : Error) (o : Option R) (f : R → Act B) (w : World)
      → P w.db
      → ((r : R) → o ≡ some r → P (f r w).1.db)
      → P ((or_throw o e >>= f) w).1.db
  unfolding ◌>>=◌
  row-keeps e none f w h k = h
  row-keeps e (some r) f w h k = k r refl

module _ {R B : Type 0} {P : Db → Type 0} where
  -- `findUnique` and a throw where there is no row: the rest may use what holds of the row.
  pub Keeps-find_row :
      (t : Table R) (p : R → Bool) (e : Error) (f : R → Act B)
      → ((w : World) → P w.db → (r : R) → find_first p (t.rows w.db) ≡ some r → P (f r w).1.db)
      → Keeps P (find t p >>= λ o. or_throw o e >>= f)
  unfolding ◌>>=◌ find
  Keeps-find_row t p e f kf = record {
    at = λ w h. row-keeps P e (find_first p (t.rows w.db)) f w h (kf w h);
  }

  -- After a query the rest may use what holds of the row that was found.
  pub Keeps-find_bind :
      (t : Table R) (p : R → Bool) (f : Option R → Act B)
      → ((w : World) → P w.db → P (f (find_first p (t.rows w.db)) w).1.db)
      → Keeps P (find t p >>= f)
  unfolding ◌>>=◌ find
  Keeps-find_bind t p f kf = record { at = kf }
