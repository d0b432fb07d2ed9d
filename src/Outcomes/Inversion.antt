-- ===== src/Outcomes/Inversion.antt =====
-- Taking a transaction apart that returned a value.
use bilive_rec.Prelude.{◌≡◌, refl, Bool, true, false, Option, none, some}
use bilive_rec.Errors.{Result, ok, err, StateError}
use bilive_rec.Store.Txn.{
  Env, Db, Tables, Txn, continue, commit_or_abort, write, fail_if, or_fail, lift, gets, ◌>>=◌,
}

-- The action returns `a`.
abbrev pub Returns : {A : Type 0} → Txn A → Env → Db → A → Type 0
Returns m env db a = (m env db).0 ≡ ok a

module _ {A B : Type 0} where
  continued :
      (r : Result A) (f : A → Txn B) (env : Env) (db : Db) {b : B}
      → (continue r f env db).0 ≡ ok b
      → (a : A) × (r ≡ ok a) × Returns (f a) env db b
  continued (ok a) f env db h = (a, refl, h)
  continued (err e) f env db h = cc

  pub Returns-bind :
      (m : Txn A) (f : A → Txn B) (env : Env) (db : Db) {b : B}
      → Returns (m >>= f) env db b
      → (a : A) × Returns m env db a × Returns (f a) env (m env db).1 b
  unfolding ◌>>=◌
  Returns-bind m f env db h = continued (m env db).0 f env (m env db).1 h

module _ {B : Type 0} (env : Env) (db : Db) {b : B} where
  pub Returns-fail_if :
      (test : Bool) (error : StateError) (f : Unit {0} → Txn B)
      → Returns (fail_if test error >>= f) env db b
      → (test ≡ false) × Returns (f tt) env db b
  unfolding ◌>>=◌
  Returns-fail_if true error f h = cc
  Returns-fail_if false error f h = (refl, h)

  module _ {A : Type 0} where
    pub Returns-or_fail :
        (o : Option A) (error : StateError) (f : A → Txn B)
        → Returns (or_fail o error >>= f) env db b
        → (a : A) × (o ≡ some a) × Returns (f a) env db b
    unfolding ◌>>=◌
    Returns-or_fail none error f h = cc
    Returns-or_fail (some a) error f h = (a, refl, h)

    pub Returns-lift :
        (r : Result A) (f : A → Txn B)
        → Returns (lift r >>= f) env db b
        → (a : A) × (r ≡ ok a) × Returns (f a) env db b
    unfolding ◌>>=◌
    Returns-lift (ok a) f h = (a, refl, h)
    Returns-lift (err e) f h = cc

    pub Returns-gets :
        (g : Tables → A) (f : A → Txn B)
        → Returns (gets g >>= f) env db b
        → Returns (f (g db.tables)) env db b
    unfolding ◌>>=◌
    Returns-gets g f h = h

  committed :
      (r : Result B) (before : Tables) (after : Db)
      → (commit_or_abort r before after).0 ≡ ok b
      → r ≡ ok b
  committed (ok a) before after h = h
  committed (err e) before after h = cc

  pub Returns-write : (m : Txn B) → Returns (write m) env db b → Returns m env db b
  unfolding write
  Returns-write m h = committed (m env db).0 db.tables (m env db).1 h
