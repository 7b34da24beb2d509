-- ===== src/Session/Everywhere.antt =====
-- A property of databases that holds in every view of a session and in every state that was durable, and
-- actions that keep it. `Ensures P Q m`: besides, `Q` holds of what `m` returns.
use chamacore.Prelude.{◌≡◌, refl, Option, none, some}
use chamacore.Prelude.Table.{All}
use chamacore.Data.{Db}
use chamacore.Session.{
  Session, Action, Result, ok, err, gets, query, modify, flush, commit, rollback, continue, after,
  or_raise, AppError, ◌>>=◌,
}
use chamacore.Session.Rules.{Keeps}

pub record Everywhere (D : Db → Type 0) (s : Session) : Type 0 where
  pub work : D s.work
  pub flushed : D s.flushed
  pub saved : D s.saved
  pub earlier : All D s.earlier

module _ {D : Db → Type 0} where
  pub Keeps-modify : (f : Db → Db) → ((db : Db) → D db → D (f db)) → Keeps (Everywhere D) (modify f)
  unfolding modify
  Keeps-modify f k = record {
    at = λ s h. record {
      work = k s.work h.work;
      flushed = h.flushed;
      saved = h.saved;
      earlier = h.earlier;
    };
  }

  pub Keeps-flush : Keeps (Everywhere D) flush
  unfolding flush
  Keeps-flush = record {
    at = λ s h. record { work = h.work; flushed = h.work; saved = h.saved; earlier = h.earlier };
  }

  pub Keeps-commit : Keeps (Everywhere D) commit
  unfolding commit
  Keeps-commit = record {
    at = λ s h. record {
      work = h.work;
      flushed = h.work;
      saved = h.work;
      earlier = (h.saved, h.earlier);
    };
  }

  pub Keeps-rollback : Keeps (Everywhere D) rollback
  unfolding rollback
  Keeps-rollback = record {
    at = λ s h. record { work = h.saved; flushed = h.saved; saved = h.saved; earlier = h.earlier };
  }

unfoldable pub Returns : {A : Type 0} → (A → Type 0) → Result A → Type 0
Returns Q (ok a) = Q a
Returns Q (err e) = Unit

pub record Ensures {A : Type 0} (P : Session → Type 0) (Q : A → Type 0) (m : Action A)
    : Type 0 where
  pub keeps : Keeps P m
  pub returns : (s : Session) → P s → Returns Q (m s).0

module _ {A B : Type 0} {P : Session → Type 0} where
  Keeps-continue :
      (Q : A → Type 0) (r : Result A) (f : A → Action B) (s : Session)
      → Returns Q r
      → ((a : A) → Q a → Keeps P (f a))
      → P s
      → P (continue r f s).1
  unfolding Returns
  Keeps-continue Q (ok a) f s q kf h = (kf a q).at s h
  Keeps-continue Q (err e) f s q kf h = h

  -- A block whose first action gives more than its result's type says.
  pub Keeps-then :
      (Q : A → Type 0) (m : Action A) (f : A → Action B)
      → Ensures P Q m
      → ((a : A) → Q a → Keeps P (f a))
      → Keeps P (m >>= f)
  unfolding ◌>>=◌
  Keeps-then Q m f e kf = record {
    at = λ s h. Keeps-continue Q (m s).0 f (m s).1 (e.returns s h) kf (e.keeps.at s h);
  }

module _ {A : Type 0} {D : Db → Type 0} where
  pub Ensures-gets :
      (Q : A → Type 0) (f : Db → A)
      → ((db : Db) → D db → Q (f db))
      → Ensures (Everywhere D) Q (gets f)
  unfolding Returns
  Ensures-gets Q f k = record {
    keeps = record { at = λ s h. h };
    returns = λ s h. k s.flushed h.flushed;
  }

  pub Ensures-query :
      (Q : A → Type 0) (f : Db → Result A)
      → ((db : Db) → D db → Returns Q (f db))
      → Ensures (Everywhere D) Q (query f)
  Ensures-query Q f k = record {
    keeps = record { at = λ s h. h };
    returns = λ s h. k s.flushed h.flushed;
  }

module _ {A : Type 0} (Q : A → Type 0) where
  pub after-Returns :
      {B : Type 0} (r : Result B) (f : B → Result A)
      → ((b : B) → r ≡ ok b → Returns Q (f b))
      → Returns Q (after r f)
  unfolding Returns
  after-Returns (ok b) f k = k b refl
  after-Returns (err e) f k = tt

  pub Returns-ok : (a : A) → Q a → Returns Q (ok a)
  unfolding Returns
  Returns-ok a q = q

pub or_raise-ok :
    {A : Type 0} (o : Option A) (e : AppError) {a : A} → or_raise o e ≡ ok a → o ≡ some a
or_raise-ok none e h = cc
or_raise-ok (some b) e h = cc
