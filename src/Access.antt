-- ===== src/Access.antt =====
-- app/services/access.py: authorization helpers that the services share. All of them read only.
use chamacore.Prelude.{
  ℕ, Bool, true, false, ◌&&◌, none, some, List, [], ◌∷◌, not, ◌==◌, if◌then◌else◌,
}
use chamacore.Prelude.Table.{find?, any}
use chamacore.Data.{Db, User, Chama, Membership, ChamaStatus, MembershipStatus, RoleName, same_role}
use chamacore.Session.{
  Result, ok, err, AppError, not_found, permission_denied, state_error, check, or_raise, after,
}

-- `Membership.has_role`
unfoldable pub has_role : Membership → RoleName → Bool
has_role m r = any (λ x. same_role x r) m.roles

abbrev pub leadership_roles : List RoleName
leadership_roles = RoleName.chairperson ∷ RoleName.treasurer ∷ RoleName.secretary ∷ []

unfoldable pub get_chama_or_404 : ℕ → Db → Result Chama
get_chama_or_404 chama_id db =
    or_raise (find? (λ c. c.id == chama_id) db.chamas) (not_found "Chama not found")

abbrev pub is_active : MembershipStatus → Bool
is_active MembershipStatus.active = true
is_active MembershipStatus.inactive = false

abbrev pub is_open : ChamaStatus → Bool
is_open ChamaStatus.active = true
is_open ChamaStatus.pending = false
is_open ChamaStatus.suspended = false
is_open ChamaStatus.dissolved = false
is_open ChamaStatus.inactive = false

abbrev not_a_member : AppError
not_a_member = permission_denied "You are not an active member of this Chama"

-- The active membership of a member in a Chama.
unfoldable pub membership_of : ℕ → ℕ → Db → Result Membership
membership_of member_id chama_id db =
    or_raise
      (find? (λ m. m.member_id == member_id && m.chama_id == chama_id && is_active m.status)
        db.memberships)
      not_a_member

unfoldable pub authorize_chama_access : User → ℕ → Db → Result Membership
unfolding membership_of
authorize_chama_access actor chama_id db = elim actor.member_id [
  | none ↦ err not_a_member
  | some member_id ↦ membership_of member_id chama_id db
]

unfoldable pub authorize_chama_write : User → ℕ → Db → Result Membership
authorize_chama_write actor chama_id db = after (get_chama_or_404 chama_id db) λ chama.
    after (authorize_chama_access actor chama_id db) λ membership.
      after
        (check (not (is_open chama.status))
          (state_error "This Chama is read-only until a platform administrator activates it"))
        λ _. ok membership

unfoldable pub require_roles : Membership → List RoleName → Result (Unit {0})
unfolding has_role
require_roles m roles =
    check (not (any (λ r. has_role m r) roles))
      (permission_denied "This action requires one of the roles")

unfoldable pub require_role : Membership → RoleName → Result (Unit {0})
unfolding has_role
require_role m r = check (not (has_role m r)) (permission_denied "This action requires the role")

unfoldable pub require_own_or_leadership : Membership → ℕ → Result (Unit {0})
unfolding has_role
require_own_or_leadership caller target_membership_id =
    if caller.id == target_membership_id
    then ok tt
    else if any (λ r. has_role caller r) leadership_roles
    then ok tt
    else err (permission_denied "You may only view your own resource")

unfoldable pub get_target_membership : ℕ → ℕ → Db → Result Membership
get_target_membership chama_id membership_id db =
    after
      (or_raise (find? (λ m. m.id == membership_id) db.memberships)
        (not_found "Membership not found in this Chama"))
      λ m.
        after
          (check (not (m.chama_id == chama_id)) (not_found "Membership not found in this Chama"))
          λ _. ok m

-- `any(membership.has_role(role) for role in LEADERSHIP_ROLES)`
abbrev pub is_leader : Membership → Bool
is_leader m = any (λ r. has_role m r) leadership_roles
