-- ===== src/Rooms/Rules.antt =====
-- Following a transaction from a store whose rooms and sessions agree to one where they agree again.
use bilive_rec.Prelude.{
  ℕ, ◌≡◌, refl, sym, ◌∙◌, subst, Bool, true, false, Option, none, some, String,
}
use bilive_rec.Errors.{Result, ok, err, StateError, session_does_not_exist}
use bilive_rec.Model.{Uuid, Timestamp}
use bilive_rec.Model.Session.{LiveSession}
use bilive_rec.Model.Room.{RoomState, RoomLifecycle}
use bilive_rec.Store.Table.{get, put}
use bilive_rec.Store.Keys.{id_key}
use bilive_rec.Store.Txn.{
  Env, Db, Tables, Txn, continue, commit_or_abort, write, raise, fail_if, or_fail, gets,
  put_session, ◌>>=◌,
}
use bilive_rec.Store.Effects.{Quiet}
use bilive_rec.Transitions.Guards.{require_session, put_room}
use bilive_rec.Rooms.Owned.{Sessions, Rooms, Agree}

abbrev pub Own : Type 0
Own = Sessions × Rooms

abbrev pub own : Tables → Own
own t = (t.sessions, t.room_states)

abbrev pub Agreed : Own → Type 0
Agreed x = Agree x.0 x.1

-- From `x`, the action leaves sessions and rooms as they are.
pub record Still {A : Type 0} (x : Own) (m : Txn A) : Type 0 where
  pub at : (env : Env) (db : Db) → own db.tables ≡ x → own (m env db).1.tables ≡ x

abbrev pub Kept : {A : Type 0} → Result A → Own → Type 0
Kept (ok a) y = Agreed y
Kept (err e) y = Unit

-- From `x`, the action fails or ends where sessions and rooms agree.
pub record Leads {A : Type 0} (x : Own) (m : Txn A) : Type 0 where
  pub at : (env : Env) (db : Db) → own db.tables ≡ x → Kept (m env db).0 (own (m env db).1.tables)

-- Sessions and rooms that agree do so after the action, however it ends.
pub record Agreeing {A : Type 0} (m : Txn A) : Type 0 where
  pub at : (env : Env) (db : Db) → Agreed (own db.tables) → Agreed (own (m env db).1.tables)

Kept-of : {A : Type 0} (r : Result A) (y : Own) → Agreed y → Kept r y
Kept-of (ok a) y h = h
Kept-of (err e) y h = tt

module _ {A : Type 0} {x : Own} where
  pub Still-Quiet : (m : Txn A) → Quiet own m → Still x m
  Still-Quiet m q = record { at = λ env db e. q.same env db ∙ e }

  pub Leads-Still : (m : Txn A) → Agreed x → Still x m → Leads x m
  Leads-Still m agree q = record {
    at = λ env db e. Kept-of _ _ (subst Agreed (sym (q.at env db e)) agree);
  }

module _ {A B : Type 0} {x : Own} where
  continue-Still :
      (r : Result A) (f : A → Txn B) (env : Env) (db : Db)
      → own db.tables ≡ x
      → ((a : A) → Still x (f a))
      → own (continue r f env db).1.tables ≡ x
  continue-Still (ok a) f env db e h = (h a).at env db e
  continue-Still (err c) f env db e h = e

  pub Still-bind :
      (m : Txn A) (f : A → Txn B) → Still x m → ((a : A) → Still x (f a)) → Still x (m >>= f)
  unfolding ◌>>=◌
  Still-bind m f q h = record {
    at = λ env db e. continue-Still (m env db).0 f env _ (q.at env db e) h;
  }

  continue-Leads :
      (r : Result A) (f : A → Txn B) (env : Env) (db : Db)
      → own db.tables ≡ x
      → ((a : A) → Leads x (f a))
      → Kept (continue r f env db).0 (own (continue r f env db).1.tables)
  continue-Leads (ok a) f env db e h = (h a).at env db e
  continue-Leads (err c) f env db e h = tt

  pub Leads-bind :
      (m : Txn A) (f : A → Txn B) → Still x m → ((a : A) → Leads x (f a)) → Leads x (m >>= f)
  unfolding ◌>>=◌
  Leads-bind m f q h = record {
    at = λ env db e. continue-Leads (m env db).0 f env _ (q.at env db e) h;
  }

  pub Leads-or_fail :
      (o : Option A) (error : StateError) (f : A → Txn B)
      → ((a : A) → o ≡ some a → Leads x (f a))
      → Leads x (or_fail o error >>= f)
  unfolding ◌>>=◌
  Leads-or_fail none error f h = record { at = λ env db e. tt }
  Leads-or_fail (some a) error f h = h a refl

  pub Leads-gets :
      (g : Own → A) (f : A → Txn B) → Leads x (f (g x)) → Leads x (gets (λ t. g (own t)) >>= f)
  unfolding ◌>>=◌
  Leads-gets g f h = record {
    at = λ env db e.
        subst (λ y. Kept (f (g y) env db).0 (own (f (g y) env db).1.tables)) (sym e)
          (h.at env db e);
  }

module _ {B : Type 0} {x : Own} where
  pub Leads-fail_if :
      (b : Bool) (error : StateError) (f : Unit {0} → Txn B)
      → (b ≡ false → Leads x (f tt))
      → Leads x (fail_if b error >>= f)
  unfolding ◌>>=◌
  Leads-fail_if true error f h = record { at = λ env db e. tt }
  Leads-fail_if false error f h = h refl

  session_or_not :
      (o : Option LiveSession) (f : LiveSession → Txn B) (env : Env) (db : Db)
      → own db.tables ≡ x
      → ((s : LiveSession) → o ≡ some s → Leads x (f s))
      → Kept
          ((or_fail o session_does_not_exist >>= f) env db).0
          (own ((or_fail o session_does_not_exist >>= f) env db).1.tables)
  unfolding ◌>>=◌
  session_or_not none f env db e h = tt
  session_or_not (some s) f env db e h = (h s refl).at env db e

  pub Leads-require_session :
      (id : Uuid) (f : LiveSession → Txn B)
      → ((s : LiveSession) → get x.0 id ≡ some s → Leads x (f s))
      → Leads x (require_session id >>= f)
  unfolding require_session ◌>>=◌
  Leads-require_session id f h = record {
    at = λ env db e.
        session_or_not (get db.sessions id) f env db e
          (λ s found. h s (subst (λ y. get y.0 id ≡ some s) e found));
  }

  pub Leads-put_session :
      (s : LiveSession) (f : Unit {0} → Txn B)
      → Leads (put s.id s x.0, x.1) (f tt)
      → Leads x (put_session s >>= f)
  unfolding ◌>>=◌
  Leads-put_session s f h = record {
    at = λ env db e. h.at env _ (λ i. (put s.id s (e i).0, (e i).1));
  }

  pub Leads-put_room :
      (room_id : ℕ) (l : RoomLifecycle) (message : Option String) (f : Unit {0} → Txn B)
      → ((changed_at : Timestamp)
          → Leads
              (
                x.0,
                put room_id
                    (record { lifecycle = l; changed_at = changed_at; message = message })
                    x.1,
              )
              (f tt))
      → Leads x (put_room room_id l message >>= f)
  unfolding put_room ◌>>=◌
  Leads-put_room room_id l message f h = record {
    at = λ env db e.
        let room : RoomState = record {
          lifecycle = l;
          changed_at = env.clock db.clock_reads;
          message = message;
        } in
        (h (env.clock db.clock_reads)).at env (put_room room_id l message env db).1
          (λ i. ((e i).0, put room_id room (e i).1));
  }

module _ {A : Type 0} where
  pub Agreeing-Quiet : (m : Txn A) → Quiet own m → Agreeing m
  Agreeing-Quiet m q = record { at = λ env db h. subst Agreed (sym (q.same env db)) h }

  committed :
      (r : Result A) (before : Tables) (after : Db)
      → Agreed (own before)
      → Kept r (own after.tables)
      → Agreed (own (commit_or_abort r before after).1.tables)
  committed (ok a) before after h k = k
  committed (err e) before after h k = h

  pub Agreeing-write : (m : Txn A) → ((x : Own) → Agreed x → Leads x m) → Agreeing (write m)
  unfolding write
  Agreeing-write m l = record {
    at = λ env db h.
        committed (m env db).0 db.tables (m env db).1 h ((l (own db.tables) h).at env db refl);
  }

module _ {A B : Type 0} where
  continue-Agreed :
      (r : Result A) (f : A → Txn B) (env : Env) (db : Db)
      → Agreed (own db.tables)
      → ((a : A) → Agreeing (f a))
      → Agreed (own (continue r f env db).1.tables)
  continue-Agreed (ok a) f env db h k = (k a).at env db h
  continue-Agreed (err e) f env db h k = h

  pub Agreeing-bind :
      (m : Txn A) (f : A → Txn B) → Agreeing m → ((a : A) → Agreeing (f a)) → Agreeing (m >>= f)
  unfolding ◌>>=◌
  Agreeing-bind m f p h = record {
    at = λ env db g. continue-Agreed (m env db).0 f env _ (p.at env db g) h;
  }

module _ {A B : Type 0} {x : Own} where
  pub Still-or_fail :
      (o : Option A) (error : StateError) (f : A → Txn B)
      → ((a : A) → o ≡ some a → Still x (f a))
      → Still x (or_fail o error >>= f)
  unfolding ◌>>=◌
  Still-or_fail none error f h = record { at = λ env db e. e }
  Still-or_fail (some a) error f h = h a refl

  pub Still-gets :
      (g : Own → A) (f : A → Txn B) → Still x (f (g x)) → Still x (gets (λ t. g (own t)) >>= f)
  unfolding ◌>>=◌
  Still-gets g f h = record {
    at = λ env db e. subst (λ y. own (f (g y) env db).1.tables ≡ x) (sym e) (h.at env db e);
  }

module _ {B : Type 0} where
  pub Agreeing-fail_if :
      (b : Bool) (error : StateError) (f : Unit {0} → Txn B)
      → (b ≡ false → Agreeing (f tt))
      → Agreeing (fail_if b error >>= f)
  unfolding ◌>>=◌
  Agreeing-fail_if true error f h = record { at = λ env db g. g }
  Agreeing-fail_if false error f h = h refl

  pub Leads-raise : {x : Own} (error : StateError) → Leads x (raise {A = B} error)
  unfolding raise
  Leads-raise error = record { at = λ env db e. tt }

module _ {A B C : Type 0} where
  assoc_at :
      (r : Result A) (f : A → Txn B) (g : B → Txn C) (env : Env) (db : Db)
      → continue (continue r f env db).0 g env (continue r f env db).1
        ≡ continue r (λ a. f a >>= g) env db
  unfolding ◌>>=◌
  assoc_at (ok a) f g env db = refl
  assoc_at (err e) f g env db = refl

  pub Leads-assoc :
      {x : Own} (m : Txn A) (f : A → Txn B) (g : B → Txn C)
      → Leads x (m >>= λ a. f a >>= g)
      → Leads x ((m >>= f) >>= g)
  unfolding ◌>>=◌
  Leads-assoc m f g h = record {
    at = λ env db e.
        subst (λ p. Kept p.0 (own p.1.tables)) (sym (assoc_at (m env db).0 f g env (m env db).1))
          (h.at env db e);
  }

module _ {B : Type 0} {x : Own} where
  session_or_Still :
      (o : Option LiveSession) (f : LiveSession → Txn B) (env : Env) (db : Db)
      → own db.tables ≡ x
      → ((s : LiveSession) → o ≡ some s → Still x (f s))
      → own ((or_fail o session_does_not_exist >>= f) env db).1.tables ≡ x
  unfolding ◌>>=◌
  session_or_Still none f env db e h = e
  session_or_Still (some s) f env db e h = (h s refl).at env db e

  pub Still-require_session :
      (id : Uuid) (f : LiveSession → Txn B)
      → ((s : LiveSession) → get x.0 id ≡ some s → Still x (f s))
      → Still x (require_session id >>= f)
  unfolding require_session ◌>>=◌
  Still-require_session id f h = record {
    at = λ env db e.
        session_or_Still (get db.sessions id) f env db e
          (λ s found. h s (subst (λ y. get y.0 id ≡ some s) e found));
  }
