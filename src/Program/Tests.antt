-- ===== src/Program/Tests.antt =====
-- The theorems of the whole server at one history.
use trust_gate_merchant_copi.Base.{◌≢◌, refl, [], ◌∷◌, find, update_where}
use trust_gate_merchant_copi.Session.{ok, ◌>>=◌}
use trust_gate_merchant_copi.Fixtures.{env_of}
use trust_gate_merchant_copi.Policy.{newest_policy}
use trust_gate_merchant_copi.Checkout.{
  use_at, chain_refusal, claim_authority, consume_checkout_authority,
}
use trust_gate_merchant_copi.Checkout.Issue.{
  last_consumed, insert_authority, issue_or_reissue, issue_for, issue_under, issue_if_authorized,
  issue_for_request, issue_checkout_authority,
}
use trust_gate_merchant_copi.Checkout.Tests.{small_digest, authority, issue_result, consume_result}
use trust_gate_merchant_copi.Program.{issue_call, approve_call, run_all}
use trust_gate_merchant_copi.Program.Authorities.{authority_consumed_once}

-- The authority is consumed, asked for again, and the payment is sent to a person.
authority_consumed_once_example :
    (consume_checkout_authority small_digest (env_of 98) 1 96 8 (
      run_all small_digest
        (issue_call (env_of 97) 1 61 ∷ approve_call (env_of 99) 1 32 61 ∷ [])
        consume_result.1)).0
    ≢ ok authority
unfolding issue_checkout_authority issue_for_request issue_if_authorized issue_under issue_for
    issue_or_reissue insert_authority chain_refusal last_consumed newest_policy find ◌>>=◌
    consume_checkout_authority claim_authority update_where
authority_consumed_once_example =
    authority_consumed_once small_digest (env_of 97) 1 96 7 issue_result.1 consume_result.1
      (use_at 10 authority) (issue_call (env_of 97) 1 61 ∷ approve_call (env_of 99) 1 32 61 ∷ [])
      (env_of 98) 8 authority refl
