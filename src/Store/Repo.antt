-- ===== src/Store/Repo.antt =====
-- native/langhuan/src/db/mod.rs and repo/mod.rs: repository methods, `Db::call` and `Db::write`.
-- A statement fails only where it violates a constraint of the schema, and then changes nothing.
use langhuan.Prelude.{◌≡◌, Bool, true, false, Option, none, some, Text}
use langhuan.Error.{Result, ok, err, database}
use langhuan.Store.Rows.{Database}

-- What a method does: its result, and the database that it leaves.
abbrev pub Repo {ℓ} : Type ℓ → Type ℓ
Repo A = Database → Result A × Database

module _ {ℓ} {A : Type ℓ} where
  abbrev pub pure : A → Repo A
  pure a db = (ok a, db)

  abbrev pub lift : Result A → Repo A
  lift r db = (r, db)

  abbrev pub gets : (Database → A) → Repo A
  gets f db = (ok (f db), db)

-- The statements that change rows and return no value.
abbrev pub modify : (Database → Database) → Repo (Unit {0})
modify f db = (ok tt, f db)

-- A statement that a FOREIGN KEY or a PRIMARY KEY may refuse.
abbrev pub constrained : (Database → Bool) → (Database → Database) → Repo (Unit {0})
constrained allowed f db = elim (allowed db) [ true ↦ (ok tt, f db) | false ↦ (err database, db) ]

module _ {ℓ κ} {A : Type ℓ} {B : Type κ} where
  abbrev pub continue : Result A → (A → Repo B) → Repo B
  continue (ok a) f db = f a db
  continue (err e) f db = (err e, db)

  infixl 5 ◌>>=◌
  abbrev pub ◌>>=◌ : Repo A → (A → Repo B) → Repo B
  ◌>>=◌ m f db = let (r, db') = m db in continue r f db'

infixl 5 ◌>>◌
abbrev pub ◌>>◌ {κ} : {B : Type κ} → Repo (Unit {0}) → Repo B → Repo B
m >> n = m >>= λ _. n

-- `Db::write`: the methods of the closure in one transaction, rolled back on an error.
module _ {ℓ} {A : Type ℓ} where
  abbrev pub commit : Database → Result A × Database → Result A × Database
  commit before (ok a, after) = (ok a, after)
  commit before (err e, after) = (err e, before)

  unfoldable pub write : Repo A → Repo A
  write m db = commit db (m db)

  -- `Db::call`: without a transaction.
  unfoldable pub call : Repo A → Repo A
  call m = m

-- The crate `serde_json` at one type of payload: `to_string` and `from_str`.
pub record Codec (A : Type 0) : Type 0 where
  pub encode : A → Option Text
  pub decode : Text → Option A
  pub decode-encode : (a : A) (json : Text) → encode a ≡ some json → decode json ≡ some a

-- `decode_json`
abbrev pub decode_json : {A : Type 0} → Codec A → Text → Result A
decode_json c json = elim (c.decode json) [ none ↦ err database | some a ↦ ok a ]

-- `to_string` with its error as a database error.
abbrev pub encode_json : {A : Type 0} → Codec A → A → Result Text
encode_json c a = elim (c.encode a) [ none ↦ err database | some json ↦ ok json ]
