-- ===== src/Ledger/Sound.antt =====
-- Rules for `Keeps IsSoundSession`: what every other action does to the ledger's invariant. A change of
-- another table keeps it, and so does a posting or a reversal when no other session posts in between.
use mathlib.Core.Path.{subst₂}
use chamacore.Prelude.{ℕ, ◌≡◌, refl, sym, ◌∙◌, String, Option, []}
use chamacore.Data.{Db, Env, User, AuditEvent, Description}
use chamacore.Session.{Session, modify, flush, commit, rollback}
use chamacore.Session.Rules.{Keeps, keeps_rules}
use chamacore.Audit.{add_event, record_event, record_commit}
use chamacore.Ledger.{Posting, post_transaction, reverse_transaction}
use chamacore.Ledger.Book.{IsBook, IsSoundDb}
use chamacore.Ledger.Invariant.{IsSoundSession, post_transaction-IsSoundSession, alone-Lands}

pub sound-modify :
    (f : Db → Db)
    → ((db : Db) → (f db).transactions ≡ db.transactions)
    → ((db : Db) → (f db).accounts ≡ db.accounts)
    → Keeps IsSoundSession (modify f)
unfolding modify
sound-modify f ts accounts = record {
  at = λ s h. record {
    book = h.book;
    durable = h.durable;
    history = h.history;
    same_transactions = ts s.work ∙ h.same_transactions;
    same_accounts = accounts s.work ∙ h.same_accounts;
  };
}

work-IsSoundDb : (s : Session) → IsSoundSession s → IsSoundDb s.work
work-IsSoundDb s h = subst₂ IsBook (sym h.same_accounts) (sym h.same_transactions) h.book

pub sound-flush : Keeps IsSoundSession flush
unfolding flush
sound-flush = record {
  at = λ s h. record {
    book = work-IsSoundDb s h;
    durable = h.durable;
    history = h.history;
    same_transactions = refl;
    same_accounts = refl;
  };
}

pub sound-commit : Keeps IsSoundSession commit
unfolding commit
sound-commit = record {
  at = λ s h. record {
    book = work-IsSoundDb s h;
    durable = work-IsSoundDb s h;
    history = (h.durable, h.history);
    same_transactions = refl;
    same_accounts = refl;
  };
}

pub sound-rollback : Keeps IsSoundSession rollback
unfolding rollback
sound-rollback = record {
  at = λ s h. record {
    book = h.durable;
    durable = h.durable;
    history = h.history;
    same_transactions = refl;
    same_accounts = refl;
  };
}

sound-add_event : (e : AuditEvent) → Keeps IsSoundSession (modify (add_event e))
unfolding add_event
sound-add_event e = sound-modify (add_event e) (λ db. refl) (λ db. refl)

pub sound-record_event :
    (actor : User) (chama_id : ℕ) (action resource_type : String) (resource_id : ℕ)
    → Keeps IsSoundSession (record_event actor chama_id action resource_type resource_id)
unfolding record_event
sound-record_event actor chama_id action resource_type resource_id =
    search (keeps_rules, sound-add_event, sound-flush) depth 10

pub ruleset sound_rules =
    (keeps_rules, sound-flush, sound-commit, sound-rollback, sound-record_event)

pub sound-record_commit :
    (actor : User) (chama_id : ℕ) (action resource_type : String) (resource_id : ℕ)
    → Keeps IsSoundSession (record_commit actor chama_id action resource_type resource_id)
unfolding record_commit
sound-record_commit actor chama_id action resource_type resource_id = search sound_rules depth 10

module _ (env : Env) (alone : env.concurrent ≡ []) where
  pub sound-post :
      (actor : User) (p : Posting) → Keeps IsSoundSession (post_transaction env actor p)
  sound-post actor p = record {
    at = λ s h. post_transaction-IsSoundSession env actor p s h (alone-Lands env s alone h);
  }

  pub sound-reverse :
      (actor : User) (chama_id transaction_id : ℕ) (description : Option Description)
      → Keeps IsSoundSession (reverse_transaction env actor chama_id transaction_id description)
  unfolding reverse_transaction
  sound-reverse actor chama_id transaction_id description =
      search (sound_rules, sound-post actor) depth 20
