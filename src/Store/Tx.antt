-- ===== src/Store/Tx.antt =====
-- Store methods: a method reads and writes the database and returns a value or an error. What a
-- method does before it returns an error is rolled back, or was never written, so that an error
-- comes without a database.
use semantic_framework.Prelude.{
  ◌≡◌, refl, Bool, true, false, Option, none, some, Result, Error, ok, err,
}
use semantic_framework.Store.Rows.{Db}

abbrev pub Tx {ℓ} : Type ℓ → Type ℓ
Tx A = Db → Result (A × Db)

module _ {ℓ κ} {A : Type ℓ} {B : Type κ} where
  infixl 5 ◌>>=◌
  abbrev pub ◌>>=◌ : Tx A → (A → Tx B) → Tx B
  ◌>>=◌ m f db = elim (m db) [ err e ↦ err e | ok (a, db') ↦ f a db' ]

module _ {ℓ} {B : Type ℓ} where
  infixl 5 ◌>>◌
  abbrev pub ◌>>◌ : Tx (Unit {0}) → Tx B → Tx B
  m >> k = m >>= λ _. k

module _ {ℓ} {A : Type ℓ} where
  abbrev pub return : A → Tx A
  return a db = ok (a, db)

  abbrev pub fail : Error → Tx A
  fail e db = err e

  -- A row that must be there.
  abbrev pub expect : Option A → Error → Tx A
  expect none e db = err e
  expect (some a) e db = ok (a, db)

  abbrev pub gets : (Db → A) → Tx A
  gets f db = ok (f db, db)

-- `if !b { return …, e }`
abbrev pub require : Bool → Error → Tx (Unit {0})
require true e db = ok (tt, db)
require false e db = err e

abbrev pub modify : (Db → Db) → Tx (Unit {0})
modify f db = ok (tt, f db)

abbrev pub lift {ℓ} : {A : Type ℓ} → Result A → Tx A
lift (ok a) db = ok (a, db)
lift (err e) db = err e

-- What holds of the value and of the database when a method returns without an error.
abbrev pub Returns {ℓ} : {A : Type ℓ} → Tx A → Db → (A → Db → Type 0) → Type ℓ
Returns {A} m db Q = (a : A) (db' : Db) → m db ≡ ok (a, db') → Q a db'

module _ {ℓ κ} {A : Type ℓ} {B : Type κ} (db : Db) (Q : B → Db → Type 0) where
  pub Returns-bind :
      (m : Tx A) (f : A → Tx B)
      → ((a : A) (db' : Db) → m db ≡ ok (a, db') → Returns (f a) db' Q)
      → Returns (m >>= f) db Q
  Returns-bind m f k b db' h = go (m db) refl h
    where
      go :
          (r : Result (A × Db))
          → m db ≡ r
          → elim r [ err e ↦ err e | ok (a, db'') ↦ f a db'' ] ≡ ok (b, db')
          → Q b db'
      go (ok (a, db'')) e h = k a db'' e b db' h
      go (err x) e h = cc

  pub Returns-expect :
      (o : Option A) (e : Error) (f : A → Tx B)
      → ((a : A) → o ≡ some a → Returns (f a) db Q)
      → Returns (expect o e >>= f) db Q
  Returns-expect none e f k b db' h = cc
  Returns-expect (some a) e f k b db' h = k a refl b db' h

module _ {κ} {B : Type κ} (db : Db) (Q : B → Db → Type 0) where
  pub Returns-require :
      (t : Bool) (e : Error) (m : Tx B)
      → (t ≡ true → Returns m db Q)
      → Returns (require t e >> m) db Q
  Returns-require true e m k b db' h = k refl b db' h
  Returns-require false e m k b db' h = cc

  pub Returns-if :
      (t : Bool) (m n : Tx B)
      → (t ≡ true → Returns m db Q)
      → (t ≡ false → Returns n db Q)
      → Returns (elim t [ true ↦ m | false ↦ n ]) db Q
  Returns-if true m n km kn = km refl
  Returns-if false m n km kn = kn refl

module _ {ℓ κ} {A : Type ℓ} {B : Type κ} (db : Db) (Q : B → Db → Type 0) where
  pub Returns-lift :
      (r : Result A) (f : A → Tx B)
      → ((a : A) → r ≡ ok a → Returns (f a) db Q)
      → Returns (lift r >>= f) db Q
  Returns-lift (ok a) f k b db' h = k a refl b db' h
  Returns-lift (err e) f k b db' h = cc
