-- ===== src/Requests/Books.antt =====
-- The books over any history of requests.
use chamacore.Prelude.{◌≡◌, refl, List, [], ◌∷◌}
use chamacore.Prelude.Table.{All}
use chamacore.Data.{Db, Env, User}
use chamacore.Session.{Session, fresh, Action}
use chamacore.Session.Rules.{Keeps, keeps_rules}
use chamacore.Ledger.Book.{IsSoundDb}
use chamacore.Ledger.Invariant.{IsSoundSession}
use chamacore.Loan.Books
use chamacore.Payout.Books as PayoutBooks
use chamacore.Contribution.Books as ContributionBooks
use chamacore.Fee.Books as FeeBooks
use chamacore.Payment.Books as PaymentBooks
use chamacore.Payment.Webhook.Books as WebhookBooks
use chamacore.Requests.{
  Request, PaymentRequest, Call, perform, perform_payment, done, reopen, serve,
}

-- No other session posts while a request is between the lookup of a source and its insert.
abbrev pub AreAlone : List Call → Type 0
AreAlone = All (λ c. c.env.concurrent ≡ [])

done-Keeps : {A : Type 0} (m : Action A) → Keeps IsSoundSession m → Keeps IsSoundSession (done m)
unfolding done
done-Keeps m k = search keeps_rules depth 10

sound-payment :
    (env : Env) (actor : User) (r : PaymentRequest)
    → env.concurrent ≡ []
    → Keeps IsSoundSession (perform_payment env actor r)
unfolding perform_payment
sound-payment env actor (PaymentRequest.intent_create g c o) e =
    done-Keeps _ (PaymentBooks.sound-create env g actor c o)
sound-payment env actor (PaymentRequest.intent_list c l o) e =
    done-Keeps _ (PaymentBooks.sound-list_intents actor c l o)
sound-payment env actor (PaymentRequest.intent_initiate g c i k) e =
    done-Keeps _ (PaymentBooks.sound-initiate env e g actor c i k)
sound-payment env actor (PaymentRequest.callback g d) e =
    done-Keeps _ (WebhookBooks.sound-callback env e g d)

sound-perform :
    (env : Env) (actor : User) (r : Request)
    → env.concurrent ≡ []
    → Keeps IsSoundSession (perform env actor r)
unfolding perform
sound-perform env actor (Request.loan_apply c p n t) e =
    done-Keeps _ (Books.sound-apply env actor c p n t)
sound-perform env actor (Request.loan_submit c l) e = done-Keeps _ (Books.sound-submit actor c l)
sound-perform env actor (Request.loan_approve c l) e =
    done-Keeps _ (Books.sound-approve env actor c l)
sound-perform env actor (Request.loan_reject c l) e = done-Keeps _ (Books.sound-reject actor c l)
sound-perform env actor (Request.loan_cancel c l) e = done-Keeps _ (Books.sound-cancel actor c l)
sound-perform env actor (Request.loan_disburse c l) e =
    done-Keeps _ (Books.sound-disburse env e actor c l)
sound-perform env actor (Request.loan_repay c l a t) e =
    done-Keeps _ (Books.sound-record_repayment env e actor c l a t)
sound-perform env actor (Request.loan_reverse_repayment c l r) e =
    done-Keeps _ (Books.sound-reverse_repayment env e actor c l r)
sound-perform env actor (Request.payout_request c a t) e =
    done-Keeps _ (PayoutBooks.sound-request env actor c a t)
sound-perform env actor (Request.payout_approve c p) e =
    done-Keeps _ (PayoutBooks.sound-approve env actor c p)
sound-perform env actor (Request.payout_reject c p) e =
    done-Keeps _ (PayoutBooks.sound-reject actor c p)
sound-perform env actor (Request.payout_process c p) e =
    done-Keeps _ (PayoutBooks.sound-process env actor c p)
sound-perform env actor (Request.payout_complete c p) e =
    done-Keeps _ (PayoutBooks.sound-complete env e actor c p)
sound-perform env actor (Request.payout_reverse c p) e =
    done-Keeps _ (PayoutBooks.sound-reverse_payout env e actor c p)
sound-perform env actor (Request.payout_fail c p r) e =
    done-Keeps _ (PayoutBooks.sound-fail actor c p r)
sound-perform env actor (Request.contribution_record c m a p d t) e =
    done-Keeps _ (ContributionBooks.sound-record env actor c m a p d t)
sound-perform env actor (Request.contribution_confirm c k) e =
    done-Keeps _ (ContributionBooks.sound-confirm env e actor c k)
sound-perform env actor (Request.contribution_reverse c k t) e =
    done-Keeps _ (ContributionBooks.sound-reverse_contribution env e actor c k t)
sound-perform env actor (Request.fee_waive c m) e = done-Keeps _ (FeeBooks.sound-waive actor c m)
sound-perform env actor (Request.fee_pay c m) e = done-Keeps _ (FeeBooks.sound-pay env e actor c m)
sound-perform env actor (Request.fee_reverse c m) e =
    done-Keeps _ (FeeBooks.sound-reverse_payment env e actor c m)
sound-perform env actor (Request.payment r) e = sound-payment env actor r e

reopen-IsSoundSession : (s : Session) → IsSoundSession s → IsSoundSession (reopen s)
reopen-IsSoundSession s h = record {
  book = h.durable;
  durable = h.durable;
  history = h.history;
  same_transactions = refl;
  same_accounts = refl;
}

serve-IsSoundSession :
    (s : Session) (calls : List Call)
    → AreAlone calls
    → IsSoundSession s
    → IsSoundSession (serve s calls)
unfolding serve
serve-IsSoundSession s [] alone h = h
serve-IsSoundSession s (c ∷ cs) alone h =
    let next = (perform c.env c.actor c.request s).1 in
    serve-IsSoundSession (reopen next) cs alone.1
      (reopen-IsSoundSession next ((sound-perform c.env c.actor c.request alone.0).at s h))

-- From a database with a sound ledger, after any sequence of loan, payout, contribution,
-- registration fee and payment requests and callbacks, refused ones included, the ledger is sound in the durable state and in every state that was durable
-- on the way, the commits in the middle of a request included. No other session is assumed to post
-- while a request is between the lookup of a source and its insert.
pub serve-IsSoundDb :
    (db : Db) (calls : List Call)
    → IsSoundDb db
    → AreAlone calls
    → IsSoundDb (serve (fresh db []) calls).saved
      × All IsSoundDb (serve (fresh db []) calls).earlier
serve-IsSoundDb db calls sound alone =
    let start : IsSoundSession (fresh db []) = record {
      book = sound;
      durable = sound;
      history = tt;
      same_transactions = refl;
      same_accounts = refl;
    } in
    let h = serve-IsSoundSession (fresh db []) calls alone start in (h.durable, h.history)
