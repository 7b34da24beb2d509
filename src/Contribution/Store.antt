-- ===== src/Contribution/Store.antt =====
-- The queries and row updates of app/services/contribution.py, app/repositories/contribution.py and
-- app/repositories/share.py.
use chamacore.Prelude.{ℕ, Bool, true, false, ◌&&◌, not, Option, String, ◌∷◌, ◌==◌, str_eq}
use chamacore.Prelude.Table.{find?, any, update}
use chamacore.Data.{Db, Contribution, ContributionStatus, Share, ShareStatus}
use chamacore.Session.{Action, Result, ok, not_found, or_raise, check, after, fetch, lift, ◌>>=◌}

abbrev pub is_contribution : ℕ → Contribution → Bool
is_contribution contribution_id c = c.id == contribution_id

abbrev is_reversed : ContributionStatus → Bool
is_reversed ContributionStatus.reversed = true
is_reversed _ = false

abbrev pub open_in : ℕ → String → Contribution → Bool
open_in membership_id period c =
    c.membership_id == membership_id && str_eq c.period period && not (is_reversed c.status)

unfoldable pub find_open_contribution : ℕ → String → Db → Option Contribution
find_open_contribution membership_id period db =
    find? (open_in membership_id period) db.contributions

-- `contribution.membership.chama_id`; the foreign key has the membership exist.
unfoldable pub contribution_chama : Contribution → Db → Result ℕ
contribution_chama contribution db =
    after
      (or_raise (find? (λ m. m.id == contribution.membership_id) db.memberships)
        (not_found "Membership not found in this Chama"))
      λ membership. ok membership.chama_id

unfoldable pub chama_contribution : ℕ → ℕ → Db → Result Contribution
unfolding contribution_chama
chama_contribution chama_id contribution_id db =
    after
      (or_raise (find? (is_contribution contribution_id) db.contributions)
        (not_found "Contribution not found in this Chama"))
      λ c. after (contribution_chama c db) λ owner.
        after (check (not (owner == chama_id)) (not_found "Contribution not found in this Chama"))
          λ _. ok c

unfoldable pub get_chama_contribution : ℕ → ℕ → Action Contribution
unfolding chama_contribution
get_chama_contribution chama_id contribution_id = do
  found ← fetch (chama_contribution chama_id contribution_id)
  lift found

unfoldable pub add_contribution : Contribution → Db → Db
add_contribution c db = record db { contributions = c ∷ db.contributions }

unfoldable pub update_contribution : ℕ → (Contribution → Contribution) → Db → Db
update_contribution contribution_id f db = record db {
  contributions = update (is_contribution contribution_id) f db.contributions;
}

abbrev pub share_of : ℕ → Share → Bool
share_of contribution_id s = s.contribution_id == contribution_id

unfoldable pub has_share : ℕ → Db → Bool
has_share contribution_id db = any (share_of contribution_id) db.shares

unfoldable pub add_share : Share → Db → Db
add_share s db = record db { shares = s ∷ db.shares }

-- `for share in contribution.shares: share.status = REVERSED`
unfoldable pub reverse_shares : ℕ → Db → Db
reverse_shares contribution_id db = record db {
  shares =
      update (share_of contribution_id) (λ s. record s { status = ShareStatus.reversed }) db.shares;
}
