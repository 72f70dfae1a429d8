-- ===== src/Lib.antt =====
-- TrustGate: an authorization gate between agents that want to pay and a payment provider. The
-- server is written in Python on PostgreSQL; this library models the part of it that decides, moves
-- budgets and keeps a payment's life in order.
--
-- The program's parts, and where each is modelled:
--
--   Base       Signed integers over the native numbers (Python's `int`; amounts are integers of minor
--              units and do not wrap), Boolean tests, and tables as lists with SELECT, UPDATE, COUNT
--              and SUM as functions, with the lemmas on them.
--   Models     models/domain.py: the rows, the reason codes, the audit trail, and the database as one
--              record of tables. A table holds its newest row first. Texts, UUIDs and times are
--              numbers: they are only compared.
--   Session    api/database.py: an action takes the database to a result and a database, and raises or
--              returns. `atomically` is a transaction or savepoint. Session/Keeps has the rules for what
--              an action keeps however it ends, Session/Returns those for what a return implies.
--   Policy     policy_engine/evaluate.py: `evaluate_policy_rules`, the query before it, the conditional
--              upsert `reserve_daily_spend`, and `release_daily_spend`.
--   Chain      delegation/chain.py and the trigger of alembic/versions/0016: Chain/Rows has the CHECKs
--              and the trigger, Chain/Grant `grant_root` and `grant`, Chain/Walk `resolve_chain`,
--              `assert_chain_live` and `revoke`, Chain/Spend `spend` and `release`. Chain/Sound is the
--              invariant of the table, Chain/History the calls in any order, Chain/Once and Chain/Retry
--              the references, Chain/Liveness the agreement of the hops above.
--   Machine    state_machine/transitions.py: Machine/Legal has `LEGAL_TRANSITIONS` and
--              `validate_transition`, Machine/Transition `_consume_approval`, the releases and
--              `transition`. Machine/Lifecycle is the step relation, Machine/Outcome what one call does,
--              Machine/History and Machine/Paths what all calls do, Machine/Approvals and
--              Machine/SingleUse the approvals, Machine/Budget the budgets that come back.
--   Requests   api/routes/payment_requests.py: `create_payment_request_for_context`, which asks Policy,
--              claims a daily reservation (Policy) and a delegated spend (Chain) in one savepoint, writes
--              the rows and makes the first `transition` (Machine). Requests/Budgets is the claim,
--              Requests/Create the rest, Requests (the parent) the replay of a used key.
--              Requests/Same is when a retry is the same, Requests/Claiming and Requests/Stored what
--              the claim and the route leave in the database.
--   Approve    api/routes/approvals.py: `grant_approval` after the approver's token was checked; it records
--              an approval and uses it at once in a `transition` (Machine).
--   Webhook    api/routes/webhooks.py: `receive_provider_event` from the verified and parsed event on; it
--              sets the amounts and asks for a `transition` (Machine) in one savepoint.
--   Checkout   api/routes/checkout_authorities.py: Checkout/Issue has `issue_checkout_authority`, Checkout
--              `consume_checkout_authority`, Checkout/Cancel what happens to a payment whose chain is
--              revoked. Checkout/Permit, Checkout/Consume, Checkout/Use and Checkout/Chain are what they
--              guarantee.
--   Razorpay   api/routes/razorpay.py: Razorpay is the search of the provider's orders for a receipt,
--              Razorpay/Order `create_order` and `_reconcile_intent`, Razorpay/Callback
--              `verify_callback`, Razorpay/Hook `receive_razorpay_webhook`. Razorpay/World puts the server
--              beside the provider's list of orders, with calls that fail before or after the order is
--              made; Razorpay/Search, Razorpay/Post and Razorpay/OneOrder use it, Razorpay/Review is the
--              duplicate orders, Razorpay/Evidence and Razorpay/Attempts the webhook.
--   Catalog    api/routes/catalog_payment_requests.py: `create_catalog_payment_request_for_source`; the
--              purchase's facts come from the catalogue.
--   Copilot    api/routes/merchant.py: `create_basket` for any plan, whatever made it; a purchase of Catalog
--              for each line. Copilot/Routes has `approve_line`, `pay_line` and `confirm_line`.
--              Copilot/WithinDay is the daily limit, Copilot/Lines the rows, Copilot/Fate and
--              Copilot/Moved what the purchase of a line comes to, Copilot/Rounds what the loop leaves.
--   Paytm      api/routes/paytm.py: `start_payment`, `confirm_order` and `receive_callback`. Paytm/Moves is
--              what a confirmation does to the payment.
--   BodyLimit  api/body_limit.py: the middleware, on the messages of the transport.
--   Program    The calls of these parts, except Razorpay's, and `run_all` of a list of them. Program/Blind
--              and Program/Rows say what an invariant must ignore to be kept by the calls that do not
--              concern it (Program/BasketLines for the routes of a line), Program/Uses is the issue and
--              the use of an authority, and Program/Authorities the invariant of the authorities.
--   Fixtures   Small rows that the tests share; each component has its tests in a module Tests.
--
-- How they interact: Copilot calls Catalog, Approve and Paytm; Catalog calls Requests, which calls
-- Policy, Chain and Machine; Approve, Webhook and Razorpay/Hook call Machine; Checkout asks Chain;
-- Razorpay/Order consumes what Checkout issued, and Paytm issues, consumes and calls Machine;
-- Machine calls `release_daily_spend` of Policy and `release` of Chain when a payment reaches a
-- state that never spends what it holds. They share the one database.
--
-- Concurrency: row locks and advisory locks make the statements on one row follow each other, so a
-- history is a list of calls, each of which sees what the last one left. That the daily total which
-- the policy engine read may be stale is in the statement that needs it.
--
-- Bounds: the recursive query of `resolve_chain` is cut at `max_depth + 1` rounds, which is more
-- than the depth of any row that meets the table's CHECKs (`depth` is at most 8); a walk that is cut
-- short fails the test of the chain's length. The search of the provider's orders reads at most 20
-- pages of 100, as the source does, and says so when it has not come to the end. Nothing else in the
-- model runs on fuel.
--
-- Parameters: what the clocks and `uuid4` supply are arguments (`Env`, `Fresh`, `LineFresh`), of
-- which nothing is assumed but what a theorem says. `digest` is SHA-256 of the canonical JSON of a
-- purchase's facts; nothing is assumed of it either. The provider is an argument too: its pages, its
-- answer to a creation, whether a text is signed with the shared secret, and what a body parses to.
-- So are a basket's plan and the length of a text. Razorpay/World has pages that list the provider's
-- orders in order.
--
-- Formatted texts are numbers that their parts determine.
--
-- Not modelled: HTTP and its wire models, the texts of answers, hashes and signatures, the texts
-- sent to the providers, the checks of a webhook's bytes in api/routes/webhooks.py, the delegation
-- endpoints, the rest of the merchant copilot and its planner, the agents, the read models and the
-- web client. Foreign keys are not modelled; CHECKs and unique keys are where a modelled statement
-- can fail on them.
pub mod Base
pub mod Models
pub mod Session
pub mod Fixtures
pub mod Policy
pub mod Chain
pub mod Machine
pub mod Requests
pub mod Approve
pub mod Webhook
pub mod Checkout
pub mod Program
pub mod Razorpay
pub mod BodyLimit
pub mod Catalog
pub mod Copilot
pub mod Paytm
