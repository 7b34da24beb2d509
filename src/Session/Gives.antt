-- ===== src/Session/Gives.antt =====
-- What an action gives back where it returns, from whatever session: `Gives Q m`.
use chamacore.Prelude.{◌≡◌, subst}
use chamacore.Session.{Session, Action, Result, ok, err, AppError, pure, raise, continue, ◌>>=◌}
use chamacore.Session.Rules.{ok-injective}
use chamacore.Session.Everywhere.{Returns}

pub record Gives {A : Type 0} (Q : A → Type 0) (m : Action A) : Type 0 where
  pub at : (s : Session) → Returns Q (m s).0

module _ {A : Type 0} (Q : A → Type 0) where
  pub Gives-pure : (a : A) → Q a → Gives Q (pure a)
  unfolding Returns
  Gives-pure a q = record { at = λ s. q }

  pub Gives-raise : (e : AppError) → Gives Q (raise e)
  unfolding Returns
  Gives-raise e = record { at = λ s. tt }

  pub Returns-ok : (r : Result A) {a : A} → Returns Q r → r ≡ ok a → Q a
  unfolding Returns
  Returns-ok (ok b) q h = subst Q (ok-injective h) q
  Returns-ok (err e) q h = cc

module _ {A B : Type 0} (Q : B → Type 0) where
  continue-Returns :
      (r : Result A) (f : A → Action B) (s : Session)
      → ((a : A) → Gives Q (f a))
      → Returns Q (continue r f s).0
  unfolding Returns
  continue-Returns (ok a) f s k = (k a).at s
  continue-Returns (err e) f s k = tt

  -- Only the last action of a block gives its result.
  pub Gives-bind : (m : Action A) (f : A → Action B) → ((a : A) → Gives Q (f a)) → Gives Q (m >>= f)
  unfolding ◌>>=◌
  Gives-bind m f k = record { at = λ s. continue-Returns (m s).0 f (m s).1 k }

  continue-Returns-ok :
      (P : A → Type 0) (r : Result A) (f : A → Action B) (s : Session)
      → Returns P r
      → ((a : A) → P a → Gives Q (f a))
      → Returns Q (continue r f s).0
  unfolding Returns
  continue-Returns-ok P (ok a) f s p k = (k a p).at s
  continue-Returns-ok P (err e) f s p k = tt

  pub Gives-then :
      (P : A → Type 0) (m : Action A) (f : A → Action B)
      → Gives P m
      → ((a : A) → P a → Gives Q (f a))
      → Gives Q (m >>= f)
  unfolding ◌>>=◌
  Gives-then P m f g k = record { at = λ s. continue-Returns-ok P (m s).0 f (m s).1 (g.at s) k }
