-- ===== src/Act.antt =====
-- A service method: it runs in a world, may throw, and leaves what it wrote. The world is the
-- database, the number of questions put to the outside so far (ids, times, requests), the requests
-- that went out to Paystack, and what was pushed to subscribers.
-- Prisma is read as its documentation has it: `create` fails with P2002 where a unique column would
-- repeat, `update` with P2025 where there is no row, `$transaction` undoes its writes on a throw.
pub mod Keeps
pub mod Writes
pub mod Promises
pub mod Ends
pub mod Reads
pub mod Outcome
use oyana_backend.Base.{
  ◌+◌, ℕ, String, Bool, true, false, Option, none, some, List, ◌∷◌, if◌then◌else◌, ⊤, ◌==◌,
}
use oyana_backend.Base.Int.{ℤ}
use oyana_backend.Base.Table.{find_first, find_last, find_many, update_where, exists}
use oyana_backend.Db.{Db, Table}

pub data Error : Type 0 where
  bad_request forbidden not_found conflict : String → Error
  -- an error of Prisma with its code, and an `Error` of the language with its message
  prisma plain_error : String → Error

pub data Result {ℓ} (A : Type ℓ) : Type ℓ where
  ok : A → Result A
  err : Error → Result A

-- the requests that move money
pub data Request : Type 0 where
  charge : (reference : String) (amount : ℤ) → Request
  transfer : (reference recipient : String) (amount : ℤ) → Request

-- what is pushed to subscribers: the topic, and the row whose present state is the payload
pub record Publication : Type 0 where
  pub topic : String
  pub entity_id : String

pub record World : Type 0 where
  pub db : Db
  pub asked : ℕ
  pub sent : List Request
  pub published : List Publication

abbrev pub Act : Type 0 → Type 0
Act A = World → Result A × World

module _ {A : Type 0} where
  abbrev pub pure : A → Act A
  pure a w = (ok a, w)

  abbrev pub throw : Error → Act A
  throw e w = (err e, w)

  abbrev pub lift : Result A → Act A
  lift r w = (r, w)

  abbrev pub or_throw : Option A → Error → Act A
  or_throw none e = throw e
  or_throw (some a) e = pure a

module _ {A B : Type 0} where
  abbrev pub continue : Result A → (A → Act B) → World → Result B × World
  continue (ok a) f w = f a w
  continue (err e) f w = (err e, w)

  infixl 5 ◌>>=◌ ◌>>◌
  unfoldable pub ◌>>=◌ : Act A → (A → Act B) → Act B
  ◌>>=◌ m f w = let (r, w') = m w in continue r f w'

  abbrev pub ◌>>◌ : Act A → Act B → Act B
  m >> k = m >>= λ _. k

module _ {A : Type 0} where
  -- An answer from outside, which may depend on how many there were before.
  unfoldable pub ask : (ℕ → Result A) → Act A
  ask f w = (f w.asked, record w { asked = w.asked + 1 })

abbrev pub throw_if : Bool → Error → Act ⊤
throw_if true e = throw e
throw_if false e = pure tt

module _ {A : Type 0} where
  -- what a query that joins tables sees
  unfoldable pub view : (Db → A) → Act A
  view f w = (ok (f w.db), w)

module _ {A : Type 0} where
  abbrev pub recover : Result A → (Error → Act A) → World → Result A × World
  recover (ok a) handler w = (ok a, w)
  recover (err e) handler w = handler e w

  -- `try { … } catch (error) { … }`: what was written stays written
  unfoldable pub try_catch : Act A → (Error → Act A) → Act A
  try_catch m handler w = let (r, w') = m w in recover r handler w'

  abbrev pub commit : Result A → Db → World → Result A × World
  commit (ok a) before w = (ok a, w)
  commit (err e) before w = (err e, record w { db = before })

  -- `prisma.$transaction`
  unfoldable pub transaction : Act A → Act A
  transaction m w = let (r, w') = m w in commit r w.db w'

module _ {A B : Type 0} where
  abbrev proceed : Result A → (A → Act B) → (Error → Act B) → World → Result B × World
  proceed (ok a) next handler w = next a w
  proceed (err e) next handler w = handler e w

  -- `try { a = … } catch (error) { … }` with the rest of the function after it: the handler
  -- covers the first part only.
  unfoldable pub try_else : Act A → (A → Act B) → (Error → Act B) → Act B
  try_else m next handler w = let (r, w') = m w in proceed r next handler w'

module _ {R : Type 0} (t : Table R) where
  unfoldable pub find : (R → Bool) → Act (Option R)
  find p w = (ok (find_first p (t.rows w.db)), w)

  unfoldable pub find_oldest : (R → Bool) → Act (Option R)
  find_oldest p w = (ok (find_last p (t.rows w.db)), w)

  unfoldable pub find_all : (R → Bool) → Act (List R)
  find_all p w = (ok (find_many p (t.rows w.db)), w)

  abbrev pub put_rows : List R → World → World
  put_rows l w = record w { db = t.write l w.db }

  -- `clashes` tells whether another row has the same value in a unique column.
  unfoldable pub create : (R → Bool) → R → Act R
  create clashes row w =
      if exists clashes (t.rows w.db)
      then (err (prisma "P2002"), w)
      else (ok row, put_rows (row ∷ t.rows w.db) w)

  abbrev pub update_found : Option R → (R → Bool) → (R → R) → Act R
  update_found none p f w = (err (prisma "P2025"), w)
  update_found (some r) p f w = (ok (f r), put_rows (update_where p f (t.rows w.db)) w)

  unfoldable pub update : (R → Bool) → (R → R) → Act R
  update p f w = update_found (find_first p (t.rows w.db)) p f w

  unfoldable pub update_many : (R → Bool) → (R → R) → Act ⊤
  update_many p f w = (ok tt, put_rows (update_where p f (t.rows w.db)) w)

  -- `updateMany`, with the number of rows as zero or not
  unfoldable pub update_count : (R → Bool) → (R → R) → Act Bool
  update_count p f w = (ok (exists p (t.rows w.db)), put_rows (update_where p f (t.rows w.db)) w)

-- `pubSub.publish`
unfoldable pub publish : String → String → Act ⊤
publish topic id w =
    (ok tt, record w { published = record { topic = topic; entity_id = id } ∷ w.published })

-- `isUniqueConstraintError`
unfoldable pub is_unique_constraint_error : Error → Bool
is_unique_constraint_error (prisma code) = code == "P2002"
is_unique_constraint_error _ = false
