-- ===== src/Payout/Rules.antt =====
-- Rules for the steps of a payout operation.
use chamacore.Prelude.{ℕ, ◌≡◌, refl, ap, true, some, List, ◌==◌, Bool-cases, inl, inr, arith}
use chamacore.Prelude.Table.{find?, find?-update, any}
use chamacore.Data.{Db, User, Payout, PayoutStatus, same_payout_status}
use chamacore.Session.{Session, Action, Result, ok, err, AppError, modify, flush, ◌>>=◌}
use chamacore.Payout.{as_officer}
use chamacore.Payout.Store.{
  transition, update_payout, set_status, is_payout, chama_payout, get_chama_payout,
}

-- The session after `to` was assigned to the payout's status and flushed.
abbrev pub moved : Payout → PayoutStatus → Session → Session
moved payout to s =
    let db = update_payout payout.id (set_status to) s.work in record s { work = db; flushed = db }

pub transitioning :
    {B : Type 0} (payout : Payout) (allowed_from : List PayoutStatus) (to : PayoutStatus)
    (f : Unit {0} → Action B) (s : Session) (Q : Result B × Session → Type 0)
    → ((e : AppError) → Q (err e, s))
    → (any (same_payout_status payout.status) allowed_from ≡ true → Q (f tt (moved payout to s)))
    → Q ((transition payout allowed_from to >>= f) s)
unfolding transition modify flush ◌>>=◌
transitioning payout allowed_from to f s Q fails goes =
    elim (Bool-cases (any (same_payout_status payout.status) allowed_from)) [
      | inl allowed ↦ rw allowed (goes allowed)
      | inr refused ↦ rw refused (fails _)
    ]

-- A payout that is updated is found with the update.
pub find-update_payout :
    (payout_id : ℕ) (f : Payout → Payout) (db : Db) (p : Payout)
    → ((x : Payout) → (f x).id ≡ x.id)
    → find? (is_payout payout_id) db.payouts ≡ some p
    → find? (is_payout payout_id) (update_payout payout_id f db).payouts ≡ some (f p)
unfolding update_payout
find-update_payout payout_id f db p keeps h =
    find?-update (is_payout payout_id) f db.payouts (λ x. ap (λ n. n == payout_id) (keeps x)) p h

-- What `_get_chama_payout` returns.
pub chama_payout-ok :
    (chama_id payout_id : ℕ) (db : Db) (p : Payout)
    → chama_payout chama_id payout_id db ≡ ok p
    → (find? (is_payout payout_id) db.payouts ≡ some p) × (p.chama_id ≡ chama_id)
unfolding chama_payout
chama_payout-ok chama_id payout_id db p h = (ground arith, ground arith)

-- Reading the payout changes nothing.
pub get_chama_payout-reads :
    (chama_id payout_id : ℕ) (s : Session)
    → get_chama_payout chama_id payout_id s ≡ (chama_payout chama_id payout_id s.work, s)
unfolding get_chama_payout ◌>>=◌
get_chama_payout-reads chama_id payout_id s = refl

-- So does the opening of an action of an officer.
pub as_officer-reads :
    (actor : User) (chama_id : ℕ) (s : Session) → (as_officer actor chama_id s).1 ≡ s
unfolding as_officer ◌>>=◌
as_officer-reads actor chama_id s = ground arith
