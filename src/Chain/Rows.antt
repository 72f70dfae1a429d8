-- ===== src/Chain/Rows.antt =====
-- Statements on the `delegation` table: its CHECK constraints and unique index (models/domain.py),
-- the trigger `delegation_attenuates` (alembic/versions/0016), and `_evidence` of
-- delegation/chain.py.
use trust_gate_merchant_copi.Base.{
  ℕ, ◌+◌, Bool, true, false, not, ◌&&◌, ◌||◌, Option, none, some, List, [], ◌∷◌, ltb, leb, ◌==◌,
  if◌then◌else◌, is_some, ℤ, pos, ◌+ℤ◌, ltb_ℤ, leb_ℤ, find, update_where, count_where, all_where,
}
use trust_gate_merchant_copi.Models.{
  Uuid, Text, Time, database_error, DbError, policy_not_in_tenant, policy_version_mismatch,
  root_over_daily_limit, root_over_payment_limit, root_outlives_policy, parent_not_in_tenant,
  parent_revoked, depth_mismatch, delegator_is_not_holder, root_principal_changed,
  parent_policy_version_changed, budget_over_parent, cap_over_parent, outlives_parent, scope_widens,
  trigger_budget_exhausted, check_violation, unique_violation, SpendingPolicy, Delegation,
  AuditEvent, EventKind, Payload, is_delegation,
}
use trust_gate_merchant_copi.Session.{
  Action, pure, raise, gets, modify, raise_if, or_raise, atomically, ◌>>=◌, ◌>>◌,
}

-- What the host's clock, the database's clock and `uuid4` supply to one call.
pub record Env : Type 0 where
  pub now : Time
  pub db_now : Time
  pub new_id : Uuid
  pub new_correlation : Uuid

-- `MAX_DEPTH`
abbrev pub max_depth : ℕ
max_depth = 8

-- `revoked_at IS NULL`
abbrev pub is_live : Delegation → Bool
is_live d = not (is_some d.revoked_at)

abbrev at_or_after : Option Time → Time → Bool
at_or_after none t = true
at_or_after (some r) t = leb t r

abbrev is_not_empty : List Text → Bool
is_not_empty [] = false
is_not_empty (_ ∷ _) = true

-- The CHECK constraints of the table.
unfoldable pub meets_checks : Delegation → Bool
meets_checks d =
    leb d.depth max_depth
    && (if is_some d.parent_id then not (d.depth == 0) else d.depth == 0)
    && leb_ℤ (pos 0) d.budget_minor
    && leb_ℤ (pos 0) d.allocated_minor
    && leb_ℤ (pos 0) d.spent_minor
    && leb_ℤ (d.allocated_minor +ℤ d.spent_minor) d.budget_minor
    && leb_ℤ (pos 0) d.max_amount_minor
    && ltb d.created_at d.expires_at
    && at_or_after d.revoked_at d.created_at
    && is_not_empty d.allowed_skus

-- UPDATE delegation SET f WHERE p: the number of rows, unless an updated row fails a CHECK. Like
-- every statement it is done whole or not at all.
unfoldable pub update_delegations : (Delegation → Bool) → (Delegation → Delegation) → Action ℕ
update_delegations p f = atomically (do
  passed ← gets (λ s. all_where p (λ d. meets_checks (f d)) s.delegations)
  rows ← gets (λ s. count_where p s.delegations)
  raise_if (not passed) (database_error check_violation)
  modify (λ s. record s { delegations = update_where p f s.delegations })
  pure rows)

unfoldable pub member : Text → List Text → Bool
member a [] = false
member a (x ∷ xs) = a == x || member a xs

-- `xs <@ ys`
unfoldable pub contained_in : List Text → List Text → Bool
unfolding member
contained_in [] ys = true
contained_in (x ∷ xs) ys = member x ys && contained_in xs ys

-- The first test that holds decides which exception is raised.
abbrev pub first_failure : List (Bool × DbError) → Option DbError
first_failure [] = none
first_failure ((c, e) ∷ tests) = if c then some e else first_failure tests

abbrev pub raise_first : Option DbError → Action (Unit {0})
raise_first none = pure tt
raise_first (some e) = raise (database_error e)

unfoldable pub root_failure : Delegation → SpendingPolicy → Option DbError
root_failure new rules = first_failure (
    (not (new.policy_version == rules.version), policy_version_mismatch)
    ∷ (ltb_ℤ rules.max_daily_spend_minor new.budget_minor, root_over_daily_limit)
    ∷ (ltb_ℤ rules.max_amount_minor new.max_amount_minor, root_over_payment_limit)
    ∷ (ltb rules.expiry new.expires_at, root_outlives_policy)
    ∷ [])

unfoldable pub child_failure : Delegation → Delegation → Option DbError
child_failure new parent = first_failure (
    (is_some parent.revoked_at, parent_revoked)
    ∷ (not (new.depth == (parent.depth + 1)), depth_mismatch)
    ∷ (not (new.delegator_actor_id == parent.delegate_actor_id), delegator_is_not_holder)
    ∷ (not (new.root_actor_id == parent.root_actor_id), root_principal_changed)
    ∷ (not (new.policy_version == parent.policy_version), parent_policy_version_changed)
    ∷ (ltb_ℤ parent.budget_minor new.budget_minor, budget_over_parent)
    ∷ (ltb_ℤ parent.max_amount_minor new.max_amount_minor, cap_over_parent)
    ∷ (ltb parent.expires_at new.expires_at, outlives_parent)
    ∷ (not (contained_in new.allowed_skus parent.allowed_skus), scope_widens)
    ∷ [])

-- The parent still has room for `budget`: nothing else is asked of the row.
abbrev pub has_room : Uuid → Uuid → ℤ → Delegation → Bool
has_room tenant i budget d =
    is_delegation tenant i d && leb_ℤ (d.allocated_minor +ℤ d.spent_minor +ℤ budget) d.budget_minor

abbrev pub allocate : ℤ → Delegation → Delegation
allocate budget d = record d { allocated_minor = d.allocated_minor +ℤ budget }

abbrev pub is_policy : Uuid → Uuid → SpendingPolicy → Bool
is_policy tenant i p = p.tenant_id == tenant && p.id == i

-- `enforce_delegation_attenuation`, before an insert of `new`.
unfoldable pub enforce_delegation_attenuation : Delegation → Option Uuid → Action (Unit {0})
enforce_delegation_attenuation new none = do
  found ← gets (λ s. find (is_policy new.tenant_id new.policy_id) s.policies)
  rules ← or_raise found (database_error policy_not_in_tenant)
  raise_first (root_failure new rules)
enforce_delegation_attenuation new (some parent_id) = do
  found ← gets (λ s. find (is_delegation new.tenant_id parent_id) s.delegations)
  parent ← or_raise found (database_error parent_not_in_tenant)
  raise_first (child_failure new parent)
  rows ←
      update_delegations (has_room new.tenant_id parent_id new.budget_minor)
        (allocate new.budget_minor)
  raise_if (rows == 0) (database_error trigger_budget_exhausted)

-- A live hop that the actor holds: the key of `uq_delegation_one_live_per_actor`.
abbrev pub is_live_holder : Uuid → Text → Delegation → Bool
is_live_holder tenant actor d = d.tenant_id == tenant && d.delegate_actor_id == actor && is_live d

-- The row itself: the CHECK constraints and the unique keys.
unfoldable pub insert_row : Delegation → Action (Unit {0})
insert_row new = do
  raise_if (not (meets_checks new)) (database_error check_violation)
  taken ← gets (λ s. is_some (find (λ d. d.id == new.id) s.delegations))
  held ←
      gets (λ s. is_some (find (is_live_holder new.tenant_id new.delegate_actor_id) s.delegations))
  raise_if (taken || (is_live new && held)) (database_error unique_violation)
  modify (λ s. record s { delegations = new ∷ s.delegations })

-- INSERT INTO delegation, with its trigger.
unfoldable pub insert_delegation : Delegation → Action (Unit {0})
insert_delegation new =
    atomically (do enforce_delegation_attenuation new new.parent_id; insert_row new)

abbrev pub or_else : Option Uuid → Uuid → Uuid
or_else none u = u
or_else (some u) _ = u

-- `_evidence`
abbrev pub evidence :
    Uuid → Uuid → Option Uuid → Uuid → EventKind → Payload → Option Uuid → AuditEvent
evidence tenant delegation correlation fresh kind payload request = record {
  tenant_id = tenant;
  payment_request_id = request;
  payment_id = none;
  checkout_authority_id = none;
  provider_order_id = none;
  delegation_id = some delegation;
  correlation_id = or_else correlation fresh;
  event_kind = kind;
  payload = payload;
}
