-- ===== src/Session/Rules.antt =====
-- How to reason about actions. `Keeps P m`: `m` keeps `P` of the session, whether it returns or
-- raises. `>>=-ok`: what a block did that returned.
use chamacore.Prelude.{◌≡◌, refl, sym, subst, Bool, true, false, Option, none, some, if◌then◌else◌}
use chamacore.Data.{Db}
use chamacore.Session.{
  AppError, Result, ok, err, Session, Action, pure, raise, gets, fetch, query, lift, raise_if,
  check, continue, after, handle, except_integrity, if_none, ◌>>=◌,
}

pub record Keeps {A : Type 0} (P : Session → Type 0) (m : Action A) : Type 0 where
  pub at : (s : Session) → P s → P (m s).1

module _ {A : Type 0} {P : Session → Type 0} where
  pub Keeps-pure : (a : A) → Keeps P (pure a)
  Keeps-pure a = record { at = λ s h. h }

  pub Keeps-raise : (e : AppError) → Keeps P (raise {A = A} e)
  Keeps-raise e = record { at = λ s h. h }

  pub Keeps-gets : (f : Db → A) → Keeps P (gets f)
  Keeps-gets f = record { at = λ s h. h }

  pub Keeps-fetch : (f : Db → A) → Keeps P (fetch f)
  Keeps-fetch f = record { at = λ s h. h }

  pub Keeps-query : (f : Db → Result A) → Keeps P (query f)
  Keeps-query f = record { at = λ s h. h }

  pub Keeps-lift : (r : Result A) → Keeps P (lift r)
  Keeps-lift r = record { at = λ s h. h }

  pub Keeps-if : (b : Bool) (m n : Action A) → Keeps P m → Keeps P n → Keeps P (if b then m else n)
  Keeps-if true m n km kn = km
  Keeps-if false m n km kn = kn

  pub Keeps-option :
      {C : Type 0} (o : Option C) (m : Action A) (f : C → Action A)
      → Keeps P m
      → ((c : C) → Keeps P (f c))
      → Keeps P (if_none o m f)
  unfolding if_none
  Keeps-option none m f km kf = km
  Keeps-option (some c) m f km kf = kf c

module _ {P : Session → Type 0} where
  pub Keeps-raise_if : (b : Bool) (e : AppError) → Keeps P (raise_if b e)
  Keeps-raise_if b e = record { at = λ s h. h }

module _ {A B : Type 0} {P : Session → Type 0} where
  Keeps-continue :
      (r : Result A) (f : A → Action B) (s : Session)
      → ((a : A) → Keeps P (f a))
      → P s
      → P (continue r f s).1
  Keeps-continue (ok a) f s kf h = (kf a).at s h
  Keeps-continue (err e) f s kf h = h

  pub Keeps-bind :
      (m : Action A) (f : A → Action B) → Keeps P m → ((a : A) → Keeps P (f a)) → Keeps P (m >>= f)
  unfolding ◌>>=◌
  Keeps-bind m f km kf = record { at = λ s h. Keeps-continue (m s).0 f (m s).1 kf (km.at s h) }

module _ {A : Type 0} {P : Session → Type 0} where
  Keeps-handle : (r : Result A) (h : Action A) (s : Session) → Keeps P h → P s → P (handle r h s).1
  unfolding handle
  Keeps-handle (err AppError.integrity_error) h s kh p = kh.at s p
  Keeps-handle (err (AppError.not_found e)) h s kh p = p
  Keeps-handle (err (AppError.conflict e)) h s kh p = p
  Keeps-handle (err (AppError.permission_denied e)) h s kh p = p
  Keeps-handle (err (AppError.state_error e)) h s kh p = p
  Keeps-handle (err (AppError.rate_limited e)) h s kh p = p
  Keeps-handle (err (AppError.webhook_rejected e)) h s kh p = p
  Keeps-handle (err (AppError.provider_error e)) h s kh p = p
  Keeps-handle (ok a) h s kh p = p

  pub Keeps-except : (m h : Action A) → Keeps P m → Keeps P h → Keeps P (except_integrity m h)
  unfolding except_integrity
  Keeps-except m h km kh = record { at = λ s p. Keeps-handle (m s).0 h (m s).1 kh (km.at s p) }

pub ruleset keeps_rules = (
  Keeps-pure, Keeps-raise, Keeps-gets, Keeps-fetch, Keeps-query, Keeps-lift, Keeps-if,
  Keeps-raise_if, Keeps-bind, Keeps-except, Keeps-option,
)

pub ok-injective : {A : Type 0} {a b : A} → Result.ok a ≡ ok b → a ≡ b
ok-injective h = cc

module _ {A B : Type 0} where
  -- A block that returned has run both parts.
  pub >>=-ok :
      (m : Action A) (f : A → Action B) (s : Session) {b : B} {t : Session}
      → (m >>= f) s ≡ (ok b, t)
      → (a : A) × (u : Session) × (m s ≡ (ok a, u)) × (f a u ≡ (ok b, t))
  unfolding ◌>>=◌
  >>=-ok m f s {b} {t} h = go (m s) refl h
    where
      go :
          (p : Result A × Session)
          → m s ≡ p
          → continue p.0 f p.1 ≡ (ok b, t)
          → (a : A) × (u : Session) × (m s ≡ (ok a, u)) × (f a u ≡ (ok b, t))
      go (ok a, u) e k = (a, u, e, k)
      go (err x, u) e k = cc

  -- A block whose first part returned goes on from there.
  pub >>=-step :
      (m : Action A) (f : A → Action B) (s : Session) {a : A} {u : Session}
      → m s ≡ (ok a, u)
      → (m >>= f) s ≡ f a u
  unfolding ◌>>=◌
  >>=-step m f s h = rw h

  -- The same for what reads only.
  pub after-ok :
      (r : Result A) (f : A → Result B) {b : B}
      → after r f ≡ ok b
      → (a : A) × (r ≡ ok a) × (f a ≡ ok b)
  after-ok (ok a) f h = (a, refl, h)
  after-ok (err e) f h = cc

pub check-ok : (b : Bool) (e : AppError) {u : Unit {0}} → check b e ≡ ok u → b ≡ false
check-ok true e h = cc
check-ok false e h = refl

module _ {A B : Type 0} where
  -- A block whose first action only reads: it raises there, or it goes on in the same state. `Q` speaks
  -- of the block's result and of the state that it leaves.
  pub reading :
      (m : Action A) (f : A → Action B) (s : Session) (Q : Result B × Session → Type 0)
      → (m s).1 ≡ s
      → ((e : AppError) → Q (err e, s))
      → ((a : A) → (m s).0 ≡ ok a → Q (f a s))
      → Q ((m >>= f) s)
  unfolding ◌>>=◌
  reading m f s Q same fails goes = go (m s).0 (m s).1 refl same
    where
      go : (r : Result A) (u : Session) → (m s).0 ≡ r → u ≡ s → Q (continue r f u)
      go (ok a) u e k = rw k (goes a e)
      go (err x) u e k = rw k (fails x)

module _ {A B : Type 0} where
  -- A block whose first action is known to return.
  pub going :
      (m : Action A) (f : A → Action B) (s : Session) (Q : Result B × Session → Type 0) (a : A)
      (u : Session)
      → m s ≡ (ok a, u)
      → Q (f a u)
      → Q ((m >>= f) s)
  going m f s Q a u h q = subst Q (sym (>>=-step m f s h)) q

  -- A block of which only the successful outcome matters.
  pub passing :
      (m : Action A) (f : A → Action B) (s : Session) (Q : Result B × Session → Type 0)
      → ((e : AppError) (u : Session) → Q (err e, u))
      → ((a : A) (u : Session) → m s ≡ (ok a, u) → Q (f a u))
      → Q ((m >>= f) s)
  unfolding ◌>>=◌
  passing m f s Q fails goes = go (m s).0 (m s).1 refl
    where
      go : (r : Result A) (u : Session) → m s ≡ (r, u) → Q (continue r f u)
      go (ok a) u e = goes a u e
      go (err x) u e = fails x u
