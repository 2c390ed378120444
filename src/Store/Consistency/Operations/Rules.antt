-- ===== src/Store/Consistency/Operations/Rules.antt =====
-- native/langhuan/src/db/repo: rules for the methods that are chains of statements.
use langhuan.Prelude.{◌≡◌, Bool, true, false, if◌then◌else◌, Bool-cases, inl, inr}
use langhuan.Error.{Result, ok, err}
use langhuan.Store.Rows.{Database}
use langhuan.Store.Repo.{
  Repo, pure, lift, gets, modify, constrained, continue, ◌>>=◌, write, commit,
}
use langhuan.Store.Consistency.{IsConsistent}

-- `m` leaves a consistent database consistent, whether it succeeds or fails.
pub record Keeps {A : Type 0} (m : Repo A) : Type 0 where
  pub at : (db : Database) → IsConsistent db → IsConsistent (m db).1

module _ {A : Type 0} where
  pub Keeps-pure : (a : A) → Keeps (pure a)
  Keeps-pure a = record { at = λ db h. h }

  pub Keeps-lift : (r : Result A) → Keeps (lift r)
  Keeps-lift r = record { at = λ db h. h }

  pub Keeps-gets : (f : Database → A) → Keeps (gets f)
  Keeps-gets f = record { at = λ db h. h }

  pub Keeps-if :
      (b : Bool) (m n : Repo A) → Keeps m → Keeps n → Keeps (λ db. (if b then m else n) db)
  Keeps-if true m n km kn = km
  Keeps-if false m n km kn = kn

pub Keeps-modify :
    (f : Database → Database)
    → ((db : Database) → IsConsistent db → IsConsistent (f db))
    → Keeps (modify f)
Keeps-modify f k = record { at = k }

pub Keeps-constrained :
    (allowed : Database → Bool) (f : Database → Database)
    → ((db : Database) → IsConsistent db → allowed db ≡ true → IsConsistent (f db))
    → Keeps (constrained allowed f)
Keeps-constrained allowed f k = record {
  at = λ db h. elim (Bool-cases (allowed db)) [
    | inl yes' ↦ rw (yes', constrained) (k db h yes')
    | inr no' ↦ rw (no', constrained) h
  ];
}

module _ {A B : Type 0} where
  continue-IsConsistent :
      (r : Result A) (f : A → Repo B) (db : Database)
      → ((a : A) → Keeps (f a))
      → IsConsistent db
      → IsConsistent (continue r f db).1
  continue-IsConsistent (ok a) f db k h = (k a).at db h
  continue-IsConsistent (err e) f db k h = h

  pub Keeps-bind :
      (m : Repo A) (f : A → Repo B) → Keeps m → ((a : A) → Keeps (f a)) → Keeps (m >>= f)
  Keeps-bind m f km kf = record {
    at = λ db h. continue-IsConsistent (m db).0 f (m db).1 kf (km.at db h);
  }

module _ {A : Type 0} where
  commit-IsConsistent :
      (before : Database) (r : Result A) (after : Database)
      → IsConsistent before
      → IsConsistent after
      → IsConsistent (commit before (r, after)).1
  commit-IsConsistent before (ok a) after h k = k
  commit-IsConsistent before (err e) after h k = h

  pub Keeps-write : (m : Repo A) → Keeps m → Keeps (write m)
  unfolding write
  Keeps-write m k = record { at = λ db h. commit-IsConsistent db (m db).0 (m db).1 h (k.at db h) }
