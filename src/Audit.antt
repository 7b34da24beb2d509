-- ===== src/Audit.antt =====
-- app/services/audit.py: `AuditService.record` and `record_commit`. The notifications that an event
-- fans out to, its request id and its payload are not modelled.
use chamacore.Prelude.{ℕ, String, true, some, ◌∷◌}
use chamacore.Data.{Db, User, AuditEvent}
use chamacore.Session.{Action, modify, flush, commit, ◌>>◌}

-- The event of an action that succeeded, by a user, in a Chama, on one row.
abbrev event : User → ℕ → String → String → ℕ → AuditEvent
event actor chama_id action resource_type resource_id = record {
  chama_id = some chama_id;
  actor_user_id = some actor.id;
  action = action;
  resource_type = resource_type;
  resource_id = some resource_id;
  success = true;
}

unfoldable pub add_event : AuditEvent → Db → Db
add_event e db = record db { audit = e ∷ db.audit }

-- In the caller's transaction: the caller commits.
unfoldable pub record_event : User → ℕ → String → String → ℕ → Action (Unit {0})
record_event actor chama_id action resource_type resource_id = do
  modify (add_event (event actor chama_id action resource_type resource_id))
  flush

unfoldable pub record_commit : User → ℕ → String → String → ℕ → Action (Unit {0})
unfolding record_event
record_commit actor chama_id action resource_type resource_id = do
  record_event actor chama_id action resource_type resource_id
  commit
