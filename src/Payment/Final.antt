-- ===== src/Payment/Final.antt =====
-- A final status stays: no operation on payments moves an intent or an attempt that has succeeded or
-- failed.
pub mod Watch
pub mod Settle
pub mod Steps
pub mod Initiate
pub mod Create
pub mod Callback
use chamacore.Prelude.{ℕ, ◌≡◌, sym, subst, List, [], ◌∷◌}
use chamacore.Prelude.Table.{All}
use chamacore.Data.{Db, Env, User}
use chamacore.Session.{Session, Action, fresh, pure, ◌>>=◌}
use chamacore.Session.Rules.{Keeps, Keeps-bind, Keeps-pure}
use chamacore.Session.Everywhere.{Everywhere}
use chamacore.Payment.Gateway.{Gateway}
use chamacore.Payment.Intent
use chamacore.Payment.Initiate as Starting
use chamacore.Payment.Webhook
use chamacore.Payment.Webhook.Connection.{Delivery}
use chamacore.Requests.{
  Request, PaymentRequest, Call, perform, perform_payment, reopen, serve, done,
}
use Watch.{Watched, IsKept, Watching, IsFresh}
use Create.{Watching-create, Watching-list}
use Initiate.{Watching-initiate}
use Callback.{Watching-callback}

-- A call of a payment operation that draws and meets no watched id.
pub record IsPaymentCall (w : Watched) (c : Call) : Type 0 where
  pub payment : PaymentRequest
  pub kind : c.request ≡ Request.payment payment
  pub new_ids : IsFresh w c.env

module _ (w : Watched) where
  done-Watching : {A : Type 0} (m : Action A) → Keeps (Watching w) m → Keeps (Watching w) (done m)
  unfolding done
  done-Watching m k = Keeps-bind m _ k λ _. Keeps-pure tt

  perform-Watching :
      (env : Env) (actor : User) (r : PaymentRequest)
      → IsFresh w env
      → Keeps (Watching w) (perform_payment env actor r)
  unfolding perform_payment
  perform-Watching env actor (PaymentRequest.intent_create g c o) f =
      done-Watching _ (Watching-create w env g actor c o f)
  perform-Watching env actor (PaymentRequest.intent_list c l o) f =
      done-Watching _ (Watching-list w actor c l o)
  perform-Watching env actor (PaymentRequest.intent_initiate g c i k) f =
      done-Watching _ (Watching-initiate w env f g actor c i k)
  perform-Watching env actor (PaymentRequest.callback g d) f =
      done-Watching _ (Watching-callback w env g d)

  call-Watching :
      (c : Call) → IsPaymentCall w c → Keeps (Watching w) (perform c.env c.actor c.request)
  unfolding perform
  call-Watching c on =
      subst (λ r. Keeps (Watching w) (perform c.env c.actor r)) (sym on.kind)
        (perform-Watching c.env c.actor on.payment on.new_ids)

  serve-Watching :
      (s : Session) (calls : List Call)
      → All (IsPaymentCall w) calls
      → Watching w s
      → Watching w (serve s calls)
  unfolding serve
  serve-Watching s [] on h = h
  serve-Watching s (c ∷ cs) on h =
      let k = (call-Watching c on.0).at s h in
      serve-Watching (reopen (perform c.env c.actor c.request s).1) cs on.1
        (record { work = k.saved; flushed = k.saved; saved = k.saved; earlier = k.earlier })

-- Where an intent and an attempt have a final status, they still have it after any sequence of payment
-- requests and callbacks, refused ones included, in the durable state and in every state that was
-- durable on the way. The requests draw other ids, and no other session inserts the intent.
pub serve-IsKept :
    (w : Watched) (db : Db) (calls : List Call)
    → IsKept w db
    → All (IsPaymentCall w) calls
    → IsKept w (serve (fresh db []) calls).saved
      × All (IsKept w) (serve (fresh db []) calls).earlier
serve-IsKept w db calls kept on =
    let start : Watching w (fresh db []) = record {
      work = kept;
      flushed = kept;
      saved = kept;
      earlier = tt;
    } in
    let h = serve-Watching w (fresh db []) calls on start in (h.saved, h.earlier)
