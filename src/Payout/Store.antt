-- ===== src/Payout/Store.antt =====
-- app/repositories/payout.py, and the helpers of app/services/payout.py.
use chamacore.Prelude.{ℕ, Bool, ◌&&◌, not, List, ◌∷◌, ◌==◌}
use chamacore.Prelude.Int.{ℤ, sub_ℕ}
use chamacore.Prelude.Table.{find?, any, update, select, sum_of}
use chamacore.Data.{Db, Payout, PayoutStatus, same_payout_status}
use chamacore.Finance.{member_share_value}
use chamacore.Session.{
  Action, Result, ok, not_found, state_error, or_raise, check, after, raise_if, fetch, lift, modify,
  flush, ◌>>=◌, ◌>>◌,
}

abbrev pub is_payout : ℕ → Payout → Bool
is_payout payout_id p = p.id == payout_id

unfoldable pub chama_payout : ℕ → ℕ → Db → Result Payout
chama_payout chama_id payout_id db =
    after
      (or_raise (find? (is_payout payout_id) db.payouts)
        (not_found "Payout not found in this Chama"))
      λ payout.
        after
          (check (not (payout.chama_id == chama_id)) (not_found "Payout not found in this Chama"))
          λ _. ok payout

unfoldable pub get_chama_payout : ℕ → ℕ → Action Payout
unfolding chama_payout
get_chama_payout chama_id payout_id = do found ← fetch (chama_payout chama_id payout_id); lift found

unfoldable pub update_payout : ℕ → (Payout → Payout) → Db → Db
update_payout payout_id f db = record db { payouts = update (is_payout payout_id) f db.payouts }

unfoldable pub add_payout : Payout → Db → Db
add_payout payout db = record db { payouts = payout ∷ db.payouts }

abbrev pub set_status : PayoutStatus → Payout → Payout
set_status to p = record p { status = to }

unfoldable pub transition : Payout → List PayoutStatus → PayoutStatus → Action (Unit {0})
unfolding update_payout
transition payout allowed_from to = do
  raise_if (not (any (same_payout_status payout.status) allowed_from))
      (state_error "A payout in this status cannot make this transition")
  modify (update_payout payout.id (set_status to))
  flush

abbrev completed_for : ℕ → Payout → Bool
completed_for membership_id p =
    p.membership_id == membership_id && same_payout_status p.status PayoutStatus.completed

unfoldable pub completed_total_for_membership : ℕ → Db → ℕ
completed_total_for_membership membership_id db =
    sum_of (λ p. p.amount) (select (completed_for membership_id) db.payouts)

unfoldable pub available_share_value : ℕ → ℕ → Db → ℤ
unfolding completed_total_for_membership
available_share_value unit_price membership_id db =
    sub_ℕ (member_share_value unit_price membership_id db)
      (completed_total_for_membership membership_id db)
