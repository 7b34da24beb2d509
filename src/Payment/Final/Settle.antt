-- ===== src/Payment/Final/Settle.antt =====
-- The settlement of a contribution touches neither intents nor attempts.
use chamacore.Prelude.{ℕ, Bool, true, false, Option, none, some, String, List}
use chamacore.Data.{
  Env, User, PaymentIntent, Contribution, ContributionStatus, Share, AuditEvent, LedgerTransaction,
}
use chamacore.Access.{get_chama_or_404}
use chamacore.Session.{modify, rollback, gets, query, lift, raise, integrity_error}
use chamacore.Session.Rules.{
  Keeps, keeps_rules, Keeps-bind, Keeps-gets, Keeps-raise, Keeps-lift, Keeps-query,
}
use chamacore.Session.Everywhere.{
  Everywhere, Keeps-modify, Keeps-flush, Keeps-commit, Keeps-rollback,
}
use chamacore.Audit.{add_event, record_event, record_commit}
use chamacore.Ledger.{
  Posting, post_transaction, authorize_posting, validate_reversal_reference, insert_transaction,
  recover, post_new, check_source, resolve,
}
use chamacore.Ledger.Lines.{Line, normalize_lines, validate_lines}
use chamacore.Ledger.Store.{add_transaction, land, get_by_source}
use chamacore.Contribution.{settle, settle_in, confirm_pending, post_confirmation}
use chamacore.Contribution.Store.{update_contribution, add_share, get_chama_contribution}
use chamacore.Payment.Settlement.{settle_linked_contribution, settle_link}
use chamacore.Payment.Final.Watch.{Watched, Watching}

pub ruleset view_rules = (keeps_rules, Keeps-flush, Keeps-commit, Keeps-rollback)

module _ {w : Watched} where
  Watching-land : (rows : List LedgerTransaction) → Keeps (Watching w) (land rows)
  unfolding land
  Watching-land rows = record {
    at = λ s h. record {
      work = record { intents = h.work.intents; attempts = h.work.attempts };
      flushed = record { intents = h.flushed.intents; attempts = h.flushed.attempts };
      saved = record { intents = h.saved.intents; attempts = h.saved.attempts };
      earlier = h.earlier;
    };
  }

  Watching-add_transaction :
      (t : LedgerTransaction) → Keeps (Watching w) (modify (add_transaction t))
  unfolding add_transaction
  Watching-add_transaction t =
      Keeps-modify (add_transaction t) λ db h. record { intents = h.intents; attempts = h.attempts }

  Watching-add_event : (e : AuditEvent) → Keeps (Watching w) (modify (add_event e))
  unfolding add_event
  Watching-add_event e =
      Keeps-modify (add_event e) λ db h. record { intents = h.intents; attempts = h.attempts }

  Watching-contribution :
      (id : ℕ) (f : Contribution → Contribution)
      → Keeps (Watching w) (modify (update_contribution id f))
  unfolding update_contribution
  Watching-contribution id f =
      Keeps-modify (update_contribution id f)
        λ db h. record { intents = h.intents; attempts = h.attempts }

  Watching-share : (x : Share) → Keeps (Watching w) (modify (add_share x))
  unfolding add_share
  Watching-share x =
      Keeps-modify (add_share x) λ db h. record { intents = h.intents; attempts = h.attempts }

  Watching-authorize :
      (b : Bool) (actor : User) (c : ℕ) → Keeps (Watching w) (authorize_posting b actor c)
  unfolding authorize_posting
  Watching-authorize true actor c = search view_rules depth 10
  Watching-authorize false actor c = search view_rules depth 10

  Watching-reference : (c : ℕ) (r : Option ℕ) → Keeps (Watching w) (validate_reversal_reference c r)
  unfolding validate_reversal_reference
  Watching-reference c none = search view_rules depth 10
  Watching-reference c (some r) = search view_rules depth 20

  Watching-recover : (p : Posting) (lines : List Line) → Keeps (Watching w) (recover p lines)
  unfolding recover resolve
  Watching-recover p lines =
      Keeps-bind rollback _ Keeps-rollback
        λ _. Keeps-bind (gets (get_by_source p.source_type p.source_id)) _ (Keeps-gets _) dispatch
    where
      dispatch :
          (existing : Option LedgerTransaction)
          → Keeps {A = LedgerTransaction}
              (Watching w)
              (elim existing [ none ↦ raise integrity_error | some tx ↦ lift (resolve tx p lines) ])
      dispatch none = Keeps-raise _
      dispatch (some tx) = Keeps-lift _

  Watching-insert :
      (t : LedgerTransaction) (p : Posting) (lines : List Line)
      → Keeps (Watching w) (insert_transaction t p lines)
  unfolding insert_transaction
  Watching-insert t p lines =
      search (view_rules, Watching-recover, Watching-add_transaction) depth 20

  Watching-post_new :
      (env : Env) (actor : User) (p : Posting) (lines : List Line)
      → Keeps (Watching w) (post_new env actor p lines)
  unfolding post_new
  Watching-post_new env actor p lines =
      search (view_rules, Watching-reference, Watching-land, Watching-insert) depth 20

  Watching-post :
      (env : Env) (actor : User) (p : Posting) → Keeps (Watching w) (post_transaction env actor p)
  unfolding post_transaction resolve
  Watching-post env actor p =
      Keeps-bind (query (get_chama_or_404 p.chama_id)) _ (Keeps-query _) λ _.
        Keeps-bind (authorize_posting p.require_membership actor p.chama_id) _
          (Watching-authorize p.require_membership actor p.chama_id)
          λ _. Keeps-bind (lift (normalize_lines p.lines)) _ (Keeps-lift _) λ lines.
            Keeps-bind (query (validate_lines p.chama_id lines)) _ (Keeps-query _) λ _.
              Keeps-bind (lift (check_source p)) _ (Keeps-lift _) λ _.
                Keeps-bind (gets (get_by_source p.source_type p.source_id)) _ (Keeps-gets _)
                  (dispatch lines)
    where
      dispatch :
          (lines : List Line) (existing : Option LedgerTransaction)
          → Keeps {A = LedgerTransaction} (Watching w) (elim existing [
            | none ↦ post_new env actor p lines
            | some tx ↦ lift (resolve tx p lines)
          ])
      dispatch lines none = Watching-post_new env actor p lines
      dispatch lines (some tx) = Keeps-lift _

  Watching-record_commit :
      (actor : User) (c : ℕ) (action kind : String) (id : ℕ)
      → Keeps (Watching w) (record_commit actor c action kind id)
  unfolding record_commit record_event
  Watching-record_commit actor c action kind id = search (view_rules, Watching-add_event) depth 20

  Watching-get : (c id : ℕ) → Keeps (Watching w) (get_chama_contribution c id)
  unfolding get_chama_contribution
  Watching-get c id = search view_rules depth 10

  Watching-confirmation :
      (env : Env) (actor : User) (c : Contribution)
      → Keeps (Watching w) (post_confirmation env actor c)
  unfolding post_confirmation
  Watching-confirmation env actor c = search (view_rules, Watching-post) depth 20

  Watching-confirm :
      (env : Env) (actor : User) (c : Contribution)
      → Keeps (Watching w) (confirm_pending env actor c)
  unfolding confirm_pending
  Watching-confirm env actor c =
      search
        (
          view_rules, Watching-contribution, Watching-share, Watching-confirmation,
          Watching-record_commit, Watching-get,
        )
        depth 40

  Watching-settle_in :
      (status : ContributionStatus) (allow : Bool) (env : Env) (actor : User) (c : Contribution)
      → Keeps (Watching w) (settle_in status allow env actor c)
  unfolding settle_in
  Watching-settle_in ContributionStatus.pending allow env actor c = Watching-confirm env actor c
  Watching-settle_in ContributionStatus.confirmed true env actor c = search view_rules
  Watching-settle_in ContributionStatus.confirmed false env actor c = search view_rules
  Watching-settle_in ContributionStatus.reversed allow env actor c = search view_rules

  Watching-settle :
      (env : Env) (actor : User) (c : Contribution) (allow : Bool)
      → Keeps (Watching w) (settle env actor c allow)
  unfolding settle
  Watching-settle env actor c allow = Watching-settle_in c.status allow env actor c

  pub Watching-settlement :
      (env : Env) (x : PaymentIntent) → Keeps (Watching w) (settle_linked_contribution env x)
  unfolding settle_linked_contribution settle_link
  Watching-settlement env x = search (view_rules, Watching-settle) depth 20
