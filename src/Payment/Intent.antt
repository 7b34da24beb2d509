-- ===== src/Payment/Intent.antt =====
-- Payment intents of app/services/payment_intent.py: their creation by an idempotency key, and what a
-- caller reads.
use chamacore.Prelude.{
  ℕ, Bool, true, false, ◌&&◌, ◌||◌, not, String, Option, none, some, List, [], ◌∷◌, ◌==◌, opt_eq,
  str_eq, opt_str_eq, truthy, if◌then◌else◌,
}
use chamacore.Prelude.Table.{find?, any}
use chamacore.Data.{
  Db, Env, User, Membership, Contribution, ContributionStatus, PaymentIntent, PaymentIntentStatus,
  PaymentAttempt, PaymentAttemptStatus, PaymentTransferSource, same_intent_status,
  same_attempt_status,
}
use chamacore.Session.{
  if_none, Action, Result, ok, conflict, state_error, integrity_error, raise, check, gets, query,
  lift, pure, modify, commit, rollback, or_raise, after, ◌>>=◌, ◌>>◌,
}
use chamacore.Access.{
  get_chama_or_404, authorize_chama_access, authorize_chama_write, get_target_membership,
  require_own_or_leadership, has_role, leadership_roles, is_active,
}
use chamacore.Contribution.Store.{is_contribution}
use chamacore.Phone.{normalize_ke_msisdn}
use chamacore.Payment.Gateway.{Gateway, canonical_payload_hash}
use chamacore.Payment.Store.{
  get_by_idempotency_key, get_intent_in_chama, get_intent_row, list_intents_by_chama, add_intent,
  intent_refused, land_intents, get_attempt_in_chama, list_for_intent, last,
}
use chamacore.Payment.Transition.{transition_intent}

-- `_chama`
unfoldable pub chama_for : User → ℕ → Action (Unit {0})
chama_for actor chama_id = do
  query (get_chama_or_404 chama_id)
  query (authorize_chama_access actor chama_id)
  pure tt

abbrev is_pending : ContributionStatus → Bool
is_pending ContributionStatus.pending = true
is_pending _ = false

-- The three guards on a linked contribution.
abbrev link_allowed : ℕ → ℕ → Contribution → Result (Unit {0})
link_allowed membership_id amount c =
    after
      (check (not (c.membership_id == membership_id))
        (state_error "The linked contribution does not exist for this membership"))
      λ _.
        after
          (check (not (is_pending c.status))
            (state_error "Only a PENDING contribution can be linked to a payment"))
          λ _.
            check (not (amount == c.amount))
              (state_error "The payment amount must match the linked contribution")

-- `if x is not None: f(x)`
abbrev pub check_some : Option ℕ → (ℕ → Result (Unit {0})) → Result (Unit {0})
check_some none f = ok tt
check_some (some id) f = f id

-- `_validate_linked_contribution`, where there is a link.
unfoldable pub validate_linked_contribution : ℕ → Option ℕ → ℕ → Db → Result (Unit {0})
validate_linked_contribution membership_id contribution_id amount db =
    check_some contribution_id λ id.
      after
        (or_raise (find? (is_contribution id) db.contributions)
          (state_error "The linked contribution does not exist for this membership"))
        λ c. link_allowed membership_id amount c

-- What a client asks for; `initiate` sends it to the provider later.
pub record Order : Type 0 where
  pub membership_id : ℕ
  pub amount : ℕ
  pub currency : String
  pub purpose : String
  pub idempotency_key : String
  pub contribution_id : Option ℕ
  pub phone_number : Option String

-- `normalize_ke_msisdn(phone_number) if phone_number else None`
unfoldable pub requested_phone : Gateway → Option String → Option String
requested_phone g none = none
requested_phone g (some raw) =
    if truthy (some raw) then some (normalize_ke_msisdn g.is_decimal raw) else none

unfoldable pub new_intent : Env → Gateway → User → ℕ → Order → PaymentIntent
unfolding requested_phone canonical_payload_hash
new_intent env g actor chama_id o =
    let currency = g.upper o.currency in
    let phone = requested_phone g o.phone_number in
    record {
      id = env.row_id;
      chama_id = chama_id;
      membership_id = o.membership_id;
      contribution_id = o.contribution_id;
      requested_phone = phone;
      amount = o.amount;
      currency = currency;
      purpose = o.purpose;
      status = PaymentIntentStatus.pending;
      idempotency_key = o.idempotency_key;
      idempotency_payload_hash =
          canonical_payload_hash g o.membership_id o.amount currency o.purpose o.contribution_id
            phone;
      created_by_user_id = actor.id;
      last_transition_source = PaymentTransferSource.client;
      last_transition_by_user_id = some actor.id;
    }

-- `_match_idempotent_create`, against the intent that the request would create.
unfoldable pub match_idempotent_create : PaymentIntent → PaymentIntent → Result PaymentIntent
match_idempotent_create existing asked =
    if not (str_eq existing.idempotency_payload_hash asked.idempotency_payload_hash)
    then Result.err
        (conflict "This idempotency key was already used with a different payment request")
    else if not (existing.membership_id == asked.membership_id)
    then Result.err (conflict "This idempotency key was already used for a different membership")
    else if not (existing.amount == asked.amount)
        || not (str_eq existing.currency asked.currency)
        || not (str_eq existing.purpose asked.purpose)
    then Result.err (
        conflict
          "This idempotency key was already used with a different amount, currency, or purpose")
    else if not (opt_eq existing.contribution_id asked.contribution_id)
    then Result.err (conflict "This idempotency key was already used with a different contribution")
    else if not (opt_str_eq existing.requested_phone asked.requested_phone)
    then Result.err (conflict "This idempotency key was already used with a different prompt phone")
    else ok existing

-- The handler of `IntegrityError`: another request used the key first.
unfoldable pub recover : PaymentIntent → Action PaymentIntent
unfolding match_idempotent_create
recover intent = do
  rollback
  existing ← gets (get_by_idempotency_key intent.chama_id intent.idempotency_key)
  if_none existing (raise integrity_error) λ found. lift (match_idempotent_create found intent)

-- The insert and its commit, after the rows that other sessions commit meanwhile.
unfoldable pub insert_intent : Env → PaymentIntent → Action PaymentIntent
unfolding recover
insert_intent env intent = do
  land_intents env.concurrent_intents
  refused ← gets (intent_refused intent)
  if refused then recover intent else do modify (add_intent intent); commit; pure intent

unfoldable pub authorize_order : User → ℕ → Order → Db → Result (Unit {0})
unfolding validate_linked_contribution
authorize_order actor chama_id o db = after (get_chama_or_404 chama_id db) λ _.
    after (authorize_chama_access actor chama_id db) λ _.
      after (authorize_chama_write actor chama_id db) λ caller.
        after (get_target_membership chama_id o.membership_id db) λ target.
          after (require_own_or_leadership caller target.id) λ _.
            after
              (check (not (is_active target.status))
                (state_error "Payments can only be collected from active members"))
              λ _. validate_linked_contribution target.id o.contribution_id o.amount db

unfoldable pub create : Env → Gateway → User → ℕ → Order → Action PaymentIntent
unfolding insert_intent authorize_order new_intent match_idempotent_create
create env g actor chama_id o = do
  query (authorize_order actor chama_id o)
  let intent = new_intent env g actor chama_id o
  existing ← gets (get_by_idempotency_key chama_id o.idempotency_key)
  if_none existing (insert_intent env intent) λ found. lift (match_idempotent_create found intent)

-- An intent of the Chama that the caller may see.
unfoldable pub visible_intent : User → ℕ → ℕ → Db → Result PaymentIntent
visible_intent actor chama_id intent_id db = after (get_chama_or_404 chama_id db) λ _.
    after (authorize_chama_access actor chama_id db) λ caller.
      after
        (or_raise (get_intent_in_chama chama_id intent_id db)
          (state_error "Payment intent not found in this Chama"))
        λ intent. after (require_own_or_leadership caller intent.membership_id) λ _. ok intent

unfoldable pub get_intent : User → ℕ → ℕ → Action PaymentIntent
unfolding visible_intent
get_intent actor chama_id intent_id = query (visible_intent actor chama_id intent_id)

unfoldable pub list_attempts : User → ℕ → ℕ → Db → Result (List PaymentAttempt)
unfolding visible_intent
list_attempts actor chama_id intent_id db =
    after (visible_intent actor chama_id intent_id db) λ intent. ok (list_for_intent intent.id db)

unfoldable pub get_attempt : User → ℕ → ℕ → Db → Result PaymentAttempt
get_attempt actor chama_id attempt_id db = after (get_chama_or_404 chama_id db) λ _.
    after (authorize_chama_access actor chama_id db) λ caller.
      after
        (or_raise (get_attempt_in_chama chama_id attempt_id db)
          (state_error "Payment attempt not found in this Chama"))
        λ attempt.
          after
            (or_raise (get_intent_row attempt.payment_intent_id db)
              (state_error "Payment attempt not found in this Chama"))
            λ intent. after (require_own_or_leadership caller intent.membership_id) λ _. ok attempt

-- The last attempt was rejected for good, while the intent is still in flight.
abbrev pub rejected : Option PaymentAttempt → Bool
rejected none = false
rejected (some a) = same_attempt_status a.status PaymentAttemptStatus.failed && not a.retryable

abbrev pub is_stale : PaymentIntent → Option PaymentAttempt → Bool
is_stale intent attempt =
    same_intent_status intent.status PaymentIntentStatus.processing && rejected attempt

-- A repair, with the intent as it is afterwards.
unfoldable pub fail_stale : PaymentIntent → Action (PaymentIntent × Bool)
fail_stale intent = do
  repaired ← transition_intent intent PaymentIntentStatus.failed PaymentTransferSource.system none
  pure (repaired, true)

-- One turn of the loop of `list_intents`: the intent as it is afterwards, and whether it was repaired.
unfoldable pub repair : PaymentIntent → Action (PaymentIntent × Bool)
unfolding fail_stale
repair intent = do
  attempts ← gets (list_for_intent intent.id)
  if is_stale intent (last attempts) then fail_stale intent else pure (intent, false)

unfoldable pub repair_all : List PaymentIntent → Action (List PaymentIntent × Bool)
unfolding repair
repair_all [] = pure ([], false)
repair_all (x ∷ xs) = do
  first ← repair x
  rest ← repair_all xs
  pure (first.0 ∷ rest.0, first.1 || rest.1)

-- The scope of the list: an officer sees the Chama's intents, any other member their own.
abbrev pub scope : Membership → Option ℕ
scope caller = if any (λ r. has_role caller r) leadership_roles then none else some caller.id

unfoldable pub list_intents : User → ℕ → Option ℕ → ℕ → Action (List PaymentIntent)
unfolding chama_for repair_all
list_intents actor chama_id limit offset = do
  chama_for actor chama_id
  caller ← query (authorize_chama_access actor chama_id)
  intents ← gets (list_intents_by_chama chama_id limit offset (scope caller))
  repaired ← repair_all intents
  if repaired.1 then commit else pure tt
  pure repaired.0
