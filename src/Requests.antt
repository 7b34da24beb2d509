-- ===== src/Requests.antt =====
-- The requests that the API passes to the services of loans, payouts, contributions, registration fees
-- and payments, a provider's callback among them, each with a session of its own (`get_db` of app/db/session.py): what was not committed when the request ends is
-- gone. The routes of app/api/v1 add validation of the amounts only.
pub mod Books
use chamacore.Prelude.{ℕ, String, Option, List, [], ◌∷◌, Bool, false}
use chamacore.Data.{Db, Env, User, DateTime}
use chamacore.Session.{Session, fresh, Action, pure, ◌>>◌}
use chamacore.Loan
use chamacore.Loan.Repayment
use chamacore.Payout
use chamacore.Contribution
use chamacore.Fee
use chamacore.Payment.Gateway.{Gateway}
use chamacore.Payment.Intent
use chamacore.Payment.Intent.{Order}
use chamacore.Payment.Initiate
use chamacore.Payment.Webhook
use chamacore.Payment.Webhook.Connection.{Delivery}

-- The requests of the payment routes, and the callbacks of providers.
pub data PaymentRequest : Type 0 where
  intent_create : Gateway → ℕ → Order → PaymentRequest
  intent_list : ℕ → Option ℕ → ℕ → PaymentRequest
  intent_initiate : Gateway → ℕ → ℕ → ℕ → PaymentRequest
  callback : Gateway → Delivery → PaymentRequest

-- One constructor for each operation, with its arguments behind the Chama's id.
pub data Request : Type 0 where
  loan_apply : ℕ → ℕ → ℕ → Option String → Request
  loan_submit loan_approve loan_reject loan_cancel loan_disburse : ℕ → ℕ → Request
  loan_repay : ℕ → ℕ → ℕ → Option String → Request
  loan_reverse_repayment : ℕ → ℕ → ℕ → Request
  payout_request : ℕ → ℕ → Option String → Request
  payout_approve payout_reject payout_process payout_complete payout_reverse : ℕ → ℕ → Request
  payout_fail : ℕ → ℕ → String → Request
  contribution_record : ℕ → ℕ → ℕ → String → Option DateTime → Option String → Request
  contribution_confirm : ℕ → ℕ → Request
  contribution_reverse : ℕ → ℕ → Option String → Request
  fee_waive fee_pay fee_reverse : ℕ → ℕ → Request
  payment : PaymentRequest → Request

unfoldable pub done : {A : Type 0} → Action A → Action (Unit {0})
done m = m >> pure tt

unfoldable pub perform_payment : Env → User → PaymentRequest → Action (Unit {0})
unfolding done
perform_payment env actor (PaymentRequest.intent_create g c o) =
    done (Intent.create env g actor c o)
perform_payment env actor (PaymentRequest.intent_list c l o) =
    done (Intent.list_intents actor c l o)
perform_payment env actor (PaymentRequest.intent_initiate g c i k) =
    done (Initiate.initiate env g actor c i k)
perform_payment env actor (PaymentRequest.callback g d) = done (Webhook.handle_callback env g d)

unfoldable pub perform : Env → User → Request → Action (Unit {0})
unfolding done perform_payment
perform env actor (Request.loan_apply c p n t) = done (Loan.apply env actor c p n t)
perform env actor (Request.loan_submit c l) = done (Loan.submit actor c l)
perform env actor (Request.loan_approve c l) = done (Loan.approve env actor c l)
perform env actor (Request.loan_reject c l) = done (Loan.reject actor c l)
perform env actor (Request.loan_cancel c l) = done (Loan.cancel actor c l)
perform env actor (Request.loan_disburse c l) = done (Loan.disburse env actor c l)
perform env actor (Request.loan_repay c l a t) = done (Repayment.record_repayment env actor c l a t)
perform env actor (Request.loan_reverse_repayment c l r) =
    done (Repayment.reverse_repayment env actor c l r)
perform env actor (Request.payout_request c a t) = done (Payout.request_payout env actor c a t)
perform env actor (Request.payout_approve c p) = done (Payout.approve env actor c p)
perform env actor (Request.payout_reject c p) = done (Payout.reject actor c p)
perform env actor (Request.payout_process c p) = done (Payout.process env actor c p)
perform env actor (Request.payout_complete c p) = done (Payout.complete env actor c p)
perform env actor (Request.payout_reverse c p) = done (Payout.reverse env actor c p)
perform env actor (Request.payout_fail c p r) = done (Payout.fail actor c p r)
perform env actor (Request.contribution_record c m a p d t) =
    done (Contribution.record_contribution env actor c m a p d t)
perform env actor (Request.contribution_confirm c k) = done (Contribution.confirm env actor c k)
perform env actor (Request.contribution_reverse c k t) = done (Contribution.reverse env actor c k t)
perform env actor (Request.fee_waive c m) = done (Fee.waive actor c m)
perform env actor (Request.fee_pay c m) = done (Fee.pay env actor c m)
perform env actor (Request.fee_reverse c m) = done (Fee.reverse_payment env actor c m)
perform env actor (Request.payment r) = perform_payment env actor r

-- A request with what it takes from outside.
pub record Call : Type 0 where
  pub env : Env
  pub actor : User
  pub request : Request

-- The session at the start of the next request: only what is durable stays.
abbrev pub reopen : Session → Session
reopen s = fresh s.saved s.earlier

unfoldable pub serve : Session → List Call → Session
serve s [] = s
serve s (c ∷ cs) = serve (reopen (perform c.env c.actor c.request s).1) cs
