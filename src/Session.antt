-- ===== src/Session.antt =====
-- The database session (api/database.py and SQLAlchemy's transactions): an action reads and writes
-- the database, and raises or returns. What was written before a raise stays written until a
-- savepoint or the request's transaction rolls it back.
pub mod Keeps
pub mod Returns
pub mod Agrees
pub mod Runs
use trust_gate_merchant_copi.Base.{Bool, Option, none, some, ◌∷◌, if◌then◌else◌}
use trust_gate_merchant_copi.Models.{Db, Error, AuditEvent}

pub data Result (A : Type 0) : Type 0 where
  ok : A → Result A
  err : Error → Result A

abbrev pub Action : Type 0 → Type 0
Action A = Db → Result A × Db

unfoldable pub pure : {A : Type 0} → A → Action A
pure a s = (ok a, s)

unfoldable pub raise : {A : Type 0} → Error → Action A
raise e s = (err e, s)

-- A read of the database.
unfoldable pub gets : {A : Type 0} → (Db → A) → Action A
gets f s = (ok (f s), s)

-- A write to the database.
unfoldable pub modify : (Db → Db) → Action (Unit {0})
modify f s = (ok tt, f s)

unfoldable pub raise_if : Bool → Error → Action (Unit {0})
raise_if c e s = (if c then err e else ok tt, s)

-- `if x is None: raise`
unfoldable pub or_raise : {A : Type 0} → Option A → Error → Action A
or_raise none e s = (err e, s)
or_raise (some a) e s = (ok a, s)

abbrev pub settle : {A : Type 0} → Result A → Db → Db → Result A × Db
settle (ok a) after before = (ok a, after)
settle (err e) after before = (err e, before)

-- A transaction block, `async with session.begin_nested()`: a raise undoes what the block wrote.
unfoldable pub atomically : {A : Type 0} → Action A → Action A
atomically m s = let (r, s') = m s in settle r s' s

abbrev pub continue : {A B : Type 0} → Result A → (A → Action B) → Action B
continue (ok a) f s = f a s
continue (err e) f s = (err e, s)

infixl 5 ◌>>=◌ ◌>>◌
-- To open this is to open the primitive actions.
unfoldable pub ◌>>=◌ : {A B : Type 0} → Action A → (A → Action B) → Action B
unfolding pure raise gets modify raise_if or_raise atomically
◌>>=◌ m f s = let (r, s') = m s in continue r f s'

abbrev pub ◌>>◌ : {A B : Type 0} → Action A → Action B → Action B
m >> k = m >>= λ _. k

-- `session.add(AuditEvent(...))`. A table holds its newest row first.
abbrev pub add_audit : AuditEvent → Db → Db
add_audit e s = record s { audit_events = e ∷ s.audit_events }
