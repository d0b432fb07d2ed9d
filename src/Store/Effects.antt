-- ===== src/Store/Effects.antt =====
-- How an action of a transaction changes one part of the tables: rules that follow a `do` block step
-- by step, and hand on what each step has established.
use bilive_rec.Prelude.{
  ◌≡◌, refl, ◌∙◌, sym, Bool, true, false, Option, none, some, if◌then◌else◌, subst, ◌⊎◌, inl, inr,
}
use bilive_rec.Errors.{Result, ok, err, StateError}
use bilive_rec.Store.Txn.{
  Env, Tables, Db, Txn, pure, raise, lift, fail_if, or_fail, now, asks, gets, modify, continue,
  commit_or_abort, write, ◌>>=◌,
}

-- `m` leaves the part `π` of the tables alone.
pub record Quiet {A X : Type 0} (π : Tables → X) (m : Txn A) : Type 0 where
  pub same : (env : Env) (db : Db) → π (m env db).1.tables ≡ π db.tables

-- Unchanged, or changed as `R` says.
abbrev pub Changed : {X : Type 0} → (X → X → Type 0) → X → X → Type 0
Changed R x y = (y ≡ x) ⊎ R x y

-- Where the part `π` is `x` before `m`, it is `x` or related to `x` after it.
pub record Effect {A X : Type 0} (π : Tables → X) (R : X → X → Type 0) (x : X) (m : Txn A)
    : Type 0 where
  pub at : (env : Env) (db : Db) → π db.tables ≡ x → Changed R x (π (m env db).1.tables)

module _ {A X : Type 0} (π : Tables → X) where
  written-same :
      (r : Result A) (before : Tables) (after : Db)
      → π after.tables ≡ π before
      → π (commit_or_abort r before after).1.tables ≡ π before
  written-same (ok a) before after h = h
  written-same (err e) before after h = refl

module _ {A X : Type 0} (π : Tables → X) (R : X → X → Type 0) (x : X) where
  written-Changed :
      (r : Result A) (before : Tables) (after : Db)
      → π before ≡ x
      → Changed R x (π after.tables)
      → Changed R x (π (commit_or_abort r before after).1.tables)
  written-Changed (ok a) before after e h = h
  written-Changed (err f) before after e h = inl e

module _ {A X : Type 0} {π : Tables → X} where
  pub Quiet-pure : (a : A) → Quiet π (pure a)
  unfolding pure
  Quiet-pure a = record { same = λ env db. refl }

  pub Quiet-raise : (e : StateError) → Quiet π (raise {A = A} e)
  unfolding raise
  Quiet-raise e = record { same = λ env db. refl }

  pub Quiet-lift : (r : Result A) → Quiet π (lift r)
  unfolding lift
  Quiet-lift r = record { same = λ env db. refl }

  pub Quiet-or_fail : (o : Option A) (e : StateError) → Quiet π (or_fail o e)
  unfolding or_fail
  Quiet-or_fail none e = record { same = λ env db. refl }
  Quiet-or_fail (some a) e = record { same = λ env db. refl }

  pub Quiet-gets : (f : Tables → A) → Quiet π (gets f)
  unfolding gets
  Quiet-gets f = record { same = λ env db. refl }

  pub Quiet-asks : (f : Env → A) → Quiet π (asks f)
  unfolding asks
  Quiet-asks f = record { same = λ env db. refl }

  pub Quiet-if : (b : Bool) (m n : Txn A) → Quiet π m → Quiet π n → Quiet π (if b then m else n)
  Quiet-if true m n p q = p
  Quiet-if false m n p q = q

  pub Quiet-write : (m : Txn A) → Quiet π m → Quiet π (write m)
  unfolding write
  Quiet-write m q = record {
    same = λ env db. written-same π (m env db).0 db.tables (m env db).1 (q.same env db);
  }

module _ {X : Type 0} {π : Tables → X} where
  pub Quiet-fail_if : (b : Bool) (e : StateError) → Quiet π (fail_if b e)
  unfolding fail_if
  Quiet-fail_if true e = record { same = λ env db. refl }
  Quiet-fail_if false e = record { same = λ env db. refl }

  pub Quiet-now : Quiet π now
  unfolding now
  Quiet-now = record { same = λ env db. refl }

  pub Quiet-modify : (g : Tables → Tables) → ((t : Tables) → π (g t) ≡ π t) → Quiet π (modify g)
  unfolding modify
  Quiet-modify g h = record { same = λ env db. h db.tables }

module _ {A B X : Type 0} {π : Tables → X} where
  continue-Quiet :
      (r : Result A) (f : A → Txn B) (env : Env) (db : Db)
      → ((a : A) → Quiet π (f a))
      → π (continue r f env db).1.tables ≡ π db.tables
  continue-Quiet (ok a) f env db q = (q a).same env db
  continue-Quiet (err e) f env db q = refl

  pub Quiet-bind :
      (m : Txn A) (f : A → Txn B) → Quiet π m → ((a : A) → Quiet π (f a)) → Quiet π (m >>= f)
  unfolding ◌>>=◌
  Quiet-bind m f p q = record {
    same = λ env db. continue-Quiet (m env db).0 f env (m env db).1 q ∙ p.same env db;
  }

-- A modification of another part is quiet by computation: list `Quiet-modify` with `λ t. refl`.
pub ruleset quiet_rules = (
  Quiet-pure, Quiet-raise, Quiet-lift, Quiet-or_fail, Quiet-gets, Quiet-asks, Quiet-if, Quiet-write,
  Quiet-fail_if, Quiet-now, Quiet-bind,
)

module _ {A X : Type 0} {π : Tables → X} {R : X → X → Type 0} {x : X} where
  pub Effect-Quiet : (m : Txn A) → Quiet π m → Effect π R x m
  Effect-Quiet m q = record { at = λ env db e. inl (q.same env db ∙ e) }

  pub Effect-write : (m : Txn A) → Effect π R x m → Effect π R x (write m)
  unfolding write
  Effect-write m h = record {
    at = λ env db e. written-Changed π R x (m env db).0 db.tables (m env db).1 e (h.at env db e);
  }

module _ {A B X : Type 0} {π : Tables → X} (R : X → X → Type 0) (x : X) where
  continue-Quiet_rest :
      (r : Result A) (f : A → Txn B) (env : Env) (db : Db)
      → Changed R x (π db.tables)
      → ((a : A) → Quiet π (f a))
      → Changed R x (π (continue r f env db).1.tables)
  continue-Quiet_rest (ok a) f env db h q = subst (Changed R x) (sym ((q a).same env db)) h
  continue-Quiet_rest (err c) f env db h q = h

module _ {A B X : Type 0} {π : Tables → X} {R : X → X → Type 0} {x : X} where
  continue-Changed :
      (r : Result A) (f : A → Txn B) (env : Env) (db : Db)
      → π db.tables ≡ x
      → ((a : A) → r ≡ ok a → Effect π R x (f a))
      → Changed R x (π (continue r f env db).1.tables)
  continue-Changed (ok a) f env db e h = (h a refl).at env db e
  continue-Changed (err c) f env db e h = inl e

  pub Effect-bind :
      (m : Txn A) (f : A → Txn B)
      → Quiet π m
      → ((a : A) → Effect π R x (f a))
      → Effect π R x (m >>= f)
  unfolding ◌>>=◌
  Effect-bind m f q h = record {
    at = λ env db e.
        continue-Changed (m env db).0 f env (m env db).1 (q.same env db ∙ e) (λ a _. h a);
  }

  -- All that happens to the part happens in the first action.
  pub Effect-Quiet_rest :
      (m : Txn A) (f : A → Txn B)
      → Effect π R x m
      → ((a : A) → Quiet π (f a))
      → Effect π R x (m >>= f)
  unfolding ◌>>=◌
  Effect-Quiet_rest m f h q = record {
    at = λ env db e. continue-Quiet_rest R x (m env db).0 f env (m env db).1 (h.at env db e) q;
  }

  -- What a pure step returned is known to the rest.
  pub Effect-lift :
      (r : Result A) (f : A → Txn B)
      → ((a : A) → r ≡ ok a → Effect π R x (f a))
      → Effect π R x (lift r >>= f)
  unfolding ◌>>=◌
  Effect-lift r f h = record { at = λ env db e. continue-Changed r f env db e h }

  pub Effect-or_fail :
      (o : Option A) (error : StateError) (f : A → Txn B)
      → ((a : A) → o ≡ some a → Effect π R x (f a))
      → Effect π R x (or_fail o error >>= f)
  unfolding ◌>>=◌
  Effect-or_fail none error f h = record { at = λ env db e. inl e }
  Effect-or_fail (some a) error f h = h a refl

  -- What is read of the part is known.
  pub Effect-gets :
      (g : X → A) (f : A → Txn B)
      → Effect π R x (f (g x))
      → Effect π R x (gets (λ t. g (π t)) >>= f)
  unfolding ◌>>=◌
  Effect-gets g f h = record {
    at = λ env db e. subst (λ y. Changed R x (π (f (g y) env db).1.tables)) (sym e) (h.at env db e);
  }

module _ {B X : Type 0} {π : Tables → X} {R : X → X → Type 0} {x : X} where
  pub Effect-fail_if :
      (b : Bool) (error : StateError) (f : Unit {0} → Txn B)
      → (b ≡ false → Effect π R x (f tt))
      → Effect π R x (fail_if b error >>= f)
  unfolding ◌>>=◌
  Effect-fail_if true error f h = record { at = λ env db e. inl e }
  Effect-fail_if false error f h = h refl

  -- The one write of a transaction to the part, and a rest that leaves it alone.
  pub Effect-modify :
      (g : Tables → Tables) (f : Unit {0} → Txn B)
      → ((t : Tables) → π t ≡ x → R x (π (g t)))
      → Quiet π (f tt)
      → Effect π R x (modify g >>= f)
  unfolding ◌>>=◌
  Effect-modify g f h q = record {
    at = λ env db e. inr (subst (R x) (sym (q.same env _)) (h db.tables e));
  }
