-- ===== src/Payment/Settlement.antt =====
-- app/services/settlement.py: the contribution that a payment is for is confirmed when the payment
-- succeeds, by the system user of app/db/bootstrap.py, which is taken to be there.
use chamacore.Prelude.{ℕ, Bool, true, false, not, none, ◌==◌}
use chamacore.Prelude.Table.{find?}
use chamacore.Data.{Db, Env, User, PaymentIntent, Contribution}
use chamacore.Session.{
  if_none, Action, Result, ok, state_error, fetch, lift, pure, or_raise, check, after, ◌>>=◌, ◌>>◌,
}
use chamacore.Contribution.{settle}
use chamacore.Contribution.Store.{is_contribution, contribution_chama}

-- `ensure_system_user`
abbrev pub system_user : Env → User
system_user env = record { id = env.system_user_id; member_id = none }

-- The contribution, after the guards.
unfoldable pub linked_contribution : PaymentIntent → ℕ → Db → Result Contribution
unfolding contribution_chama
linked_contribution intent contribution_id db =
    after
      (or_raise (find? (is_contribution contribution_id) db.contributions)
        (state_error "A payment succeeded but its linked contribution no longer exists"))
      λ c.
        after
          (check (not (c.membership_id == intent.membership_id)) (
            state_error
              "A payment succeeded but its linked contribution belongs to a different membership"))
          λ _. after (contribution_chama c db) λ owner.
            after
              (check (not (owner == intent.chama_id)) (
                state_error
                  "A payment succeeded but its linked contribution belongs to a different Chama"))
              λ _. ok c

unfoldable pub settle_link : Env → PaymentIntent → ℕ → Action Bool
unfolding linked_contribution
settle_link env intent contribution_id = do
  found ← fetch (linked_contribution intent contribution_id)
  contribution ← lift found
  settle env (system_user env) contribution true
  pure true

-- True where a contribution was settled.
unfoldable pub settle_linked_contribution : Env → PaymentIntent → Action Bool
unfolding settle_link
settle_linked_contribution env intent =
    if_none intent.contribution_id (pure false) (settle_link env intent)
