-- ===== src/Session.antt =====
-- A request's database session: `sqlalchemy.orm.Session` as the services use it, and the errors of
-- app/core/errors.py. An action returns a result or raises; the session comes back either way,
-- since a raise undoes nothing by itself. `flush` and `refresh` are not visible here.
pub mod Rules
pub mod Everywhere
pub mod Gives
use chamacore.Prelude.{String, Option, none, some, List, ◌∷◌, Bool, true, false}
use chamacore.Data.{Db}

-- Each with its message; what an f-string interpolates into it is left out. `provider_error` stands for
-- an exception of app/providers/errors.py, `integrity_error` for the `IntegrityError` of the database
-- driver where no handler turns it into another.
pub data AppError : Type 0 where
  not_found conflict permission_denied state_error rate_limited webhook_rejected : String → AppError
  provider_error : String → AppError
  integrity_error : AppError

pub data Result {ℓ} (A : Type ℓ) : Type ℓ where
  ok : A → Result A
  err : AppError → Result A

-- `work` holds the objects as the request has changed them; `flushed` is what its queries see, since
-- the session factory of app/db/session.py sets `autoflush=False`; `saved` is what the last commit
-- made durable, and `earlier` are the durable states before, newest first, of which a crash between
-- two commits leaves one.
pub record Session : Type 0 where
  pub work : Db
  pub flushed : Db
  pub saved : Db
  pub earlier : List Db

-- At the start of a request, and right after a commit, the three views agree.
abbrev pub fresh : Db → List Db → Session
fresh db earlier = record { work = db; flushed = db; saved = db; earlier = earlier }

abbrev pub Action : Type 0 → Type 0
Action A = Session → Result A × Session

module _ {A : Type 0} where
  abbrev pub pure : A → Action A
  pure a s = (ok a, s)

  abbrev pub raise : AppError → Action A
  raise e s = (err e, s)

  abbrev pub gets : (Db → A) → Action A
  gets f s = (ok (f s.flushed), s)

  -- `db.get`, which finds an object before it looks for its row.
  abbrev pub fetch : (Db → A) → Action A
  fetch f s = (ok (f s.work), s)

  -- A helper that reads the database and may raise.
  abbrev pub query : (Db → Result A) → Action A
  query f s = (f s.flushed, s)

  abbrev pub lift : Result A → Action A
  lift r s = (r, s)

  abbrev pub or_raise : Option A → AppError → Result A
  or_raise none e = err e
  or_raise (some a) e = ok a

module _ {A B : Type 0} where
  abbrev pub continue : Result A → (A → Action B) → Action B
  continue (ok a) f s = f a s
  continue (err e) f s = (err e, s)

  infixl 5 ◌>>=◌ ◌>>◌
  unfoldable pub ◌>>=◌ : Action A → (A → Action B) → Action B
  ◌>>=◌ m f s = let (r, s') = m s in continue r f s'

  abbrev pub ◌>>◌ : Action A → Action B → Action B
  m >> k = m >>= λ _. k

  abbrev pub after : Result A → (A → Result B) → Result B
  after (ok a) f = f a
  after (err e) f = err e

-- `if found is None: m`, and `f(found)` otherwise.
unfoldable pub if_none : {A C : Type 0} → Option C → Action A → (C → Action A) → Action A
if_none none m f = m
if_none (some c) m f = f c

-- `if test: raise e`
abbrev pub check : Bool → AppError → Result (Unit {0})
check true e = err e
check false e = ok tt

abbrev pub raise_if : Bool → AppError → Action (Unit {0})
raise_if b e = lift (check b e)

-- An assignment to an object, or `db.add`.
unfoldable pub modify : (Db → Db) → Action (Unit {0})
modify f s = (ok tt, record s { work = f s.work })

unfoldable pub flush : Action (Unit {0})
flush s = (ok tt, record s { flushed = s.work })

unfoldable pub commit : Action (Unit {0})
commit s = (ok tt, fresh s.work (s.saved ∷ s.earlier))

-- `except IntegrityError`
module _ {A : Type 0} where
  unfoldable pub handle : Result A → Action A → Action A
  handle (err AppError.integrity_error) h s = h s
  handle r h s = (r, s)

  unfoldable pub except_integrity : Action A → Action A → Action A
  unfolding handle
  except_integrity m h s = let (r, s') = m s in handle r h s'

unfoldable pub rollback : Action (Unit {0})
rollback s = (ok tt, fresh s.saved s.earlier)
