-- ===== src/Store/Txn.antt =====
-- A step of a database transaction: it reads and writes the tables, and ends with a value or with
-- what it throws. `transaction` is the `db.transaction(fn)` of better-sqlite3 and the
-- BEGIN … COMMIT / ROLLBACK of node-postgres: a throw puts the tables back.
use exfer_honor.Base.{◌≡◌, ap}
use exfer_honor.Spec.Errors.{Thrown, Result, ok, throw}
use exfer_honor.Store.Rows.{Db}

abbrev pub Txn : Type 0 → Type 0 → Type 0
Txn G A = Db G → Result A × Db G

-- What follows a step that has ended.
abbrev pub continue : {G A B : Type 0} → (A → Txn G B) → Result A × Db G → Result B × Db G
continue f (ok a, db) = f a db
continue f (throw e, db) = (throw e, db)

infixl 5 ◌>>=◌ ◌>>◌
abbrev pub ◌>>=◌ : {G A B : Type 0} → Txn G A → (A → Txn G B) → Txn G B
◌>>=◌ m f db = continue f (m db)

abbrev pub ◌>>◌ : {G B : Type 0} → Txn G Unit → Txn G B → Txn G B
m >> k = m >>= λ _. k

abbrev pub committed : {G A : Type 0} → Db G → Result A × Db G → Result A × Db G
committed before (ok a, after) = (ok a, after)
committed before (throw e, after) = (throw e, before)

abbrev pub transaction : {G A : Type 0} → Txn G A → Txn G A
transaction body db = committed db (body db)

module _ {G A B : Type 0} (m : Txn G A) (f : A → Txn G B) (db : Db G) where
  pub >>=-throw :
      {e : Thrown} {after : Db G} → m db ≡ (throw e, after) → (m >>= f) db ≡ (throw e, after)
  >>=-throw h = ap (continue f) h

  pub >>=-ok : {a : A} {after : Db G} → m db ≡ (ok a, after) → (m >>= f) db ≡ f a after
  >>=-ok h = ap (continue f) h

-- A transaction whose body throws leaves the database as it was.
pub transaction-throw :
    {G A : Type 0} (m : Txn G A) (db : Db G) {e : Thrown} {after : Db G}
    → m db ≡ (throw e, after)
    → transaction m db ≡ (throw e, db)
transaction-throw m db h = ap (committed db) h

pub transaction-ok :
    {G A : Type 0} (m : Txn G A) (db : Db G) {a : A} {after : Db G}
    → m db ≡ (ok a, after)
    → transaction m db ≡ (ok a, after)
transaction-ok m db h = ap (committed db) h
