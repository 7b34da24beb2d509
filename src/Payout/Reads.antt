-- ===== src/Payout/Reads.antt =====
-- The payouts that a caller may list: `list_by_chama` of app/services/payout.py over the lists of
-- app/repositories/payout.py. It runs in a session of its own, so objects and rows agree. A row is
-- inserted after the rows that are older by its timestamp, so the order of the lists is the order of
-- insertion.
use chamacore.Prelude.{
  ℕ, ◌≡◌, inl, inr, Bool, true, Option, none, some, List, ◌==◌, if◌then◌else◌, Bool-cases,
}
use chamacore.Prelude.Table.{select, All, oldest_first, skip, keep, page}
use chamacore.Prelude.Listed.{
  Each, select-Each, oldest_first-Each, skip-Each, page-Each, listed-Each,
}
use chamacore.Data.{Db, User, Membership, Payout}
use chamacore.Session.{Result, ok, after}
use chamacore.Session.Rules.{after-ok, ok-injective}
use chamacore.Access.{get_chama_or_404, authorize_chama_access, is_leader}

abbrev pub rows_by_chama : ℕ → Option ℕ → ℕ → Db → List Payout
rows_by_chama chama_id limit offset db =
    page limit offset (oldest_first (select (λ p. p.chama_id == chama_id) db.payouts))

abbrev pub rows_by_membership : ℕ → Db → List Payout
rows_by_membership membership_id db =
    oldest_first (select (λ p. p.membership_id == membership_id) db.payouts)

-- `rows[offset : offset + limit if limit is not None else None]`, which keeps the offset where there is
-- no limit.
abbrev pub slice : Option ℕ → ℕ → List Payout → List Payout
slice none offset rows = skip offset rows
slice (some limit) offset rows = keep limit (skip offset rows)

unfoldable pub list_by_chama : User → ℕ → Option ℕ → ℕ → Db → Result (List Payout)
list_by_chama actor chama_id limit offset db = after (get_chama_or_404 chama_id db) λ _.
    after (authorize_chama_access actor chama_id db) λ membership. ok (
      if is_leader membership
      then rows_by_chama chama_id limit offset db
      else slice limit offset (rows_by_membership membership.id db))

slice-Each :
    (p : Payout → Bool) (limit : Option ℕ) (offset : ℕ) (rows : List Payout)
    → Each p rows
    → Each p (slice limit offset rows)
slice-Each p none offset rows h = skip-Each p offset rows h
slice-Each p (some limit) offset rows h = page-Each p (some limit) offset rows h

-- A payout that the caller may see in the Chama: any for an officer, else their own.
abbrev pub may_see_payout : Membership → ℕ → Payout → Bool
may_see_payout caller chama_id p =
    if is_leader caller then p.chama_id == chama_id else p.membership_id == caller.id

-- The list of a Chama's payouts that a caller gets has only payouts that they may see: payouts of the
-- Chama for an officer, and their own payouts for any other member.
pub list_by_chama-may_see_payout :
    (actor : User) (chama_id : ℕ) (limit : Option ℕ) (offset : ℕ) (db : Db) (caller : Membership)
    (payouts : List Payout)
    → authorize_chama_access actor chama_id db ≡ ok caller
    → list_by_chama actor chama_id limit offset db ≡ ok payouts
    → All (λ p. may_see_payout caller chama_id p ≡ true) payouts
unfolding list_by_chama
list_by_chama-may_see_payout actor chama_id limit offset db caller payouts access h =
    let (chama, found, rest) = after-ok (get_chama_or_404 chama_id db) _ h in
    let listed = ok-injective (rw access at rest) in
    let own : Payout → Bool = λ p. p.membership_id == caller.id in
    rw (← listed) (elim (Bool-cases (is_leader caller)) [
      | inl leader ↦ rw leader (listed-Each (λ p. p.chama_id == chama_id) limit offset db.payouts)
      | inr plain ↦ rw plain (
          slice-Each own limit offset (oldest_first (select own db.payouts))
            (oldest_first-Each own (select own db.payouts) (select-Each own db.payouts)))
    ])
