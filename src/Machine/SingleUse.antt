-- ===== src/Machine/SingleUse.antt =====
-- An approval is used once (`_consume_approval` of state_machine/transitions.py).
use mathlib.Core.Option
use trust_gate_merchant_copi.Base.{◌≡◌, true, some, is_some, find}
use trust_gate_merchant_copi.Models.{Uuid, Approval, Db}
use trust_gate_merchant_copi.Machine.Transition.{is_approval}

module _ (tenant i : Uuid) (a : Approval) (used : is_some a.consumed_at ≡ true) where
  -- The used approval is in the database.
  abbrev HasUsed : Db → Type 0
  HasUsed s = find (is_approval tenant i) s.approvals ≡ some a
