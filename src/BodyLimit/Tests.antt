-- ===== src/BodyLimit/Tests.antt =====
-- The theorems of the body limit at small bodies.
use trust_gate_merchant_copi.Base.{◌≡◌, refl, true, false, none, List, [], ◌∷◌}
use trust_gate_merchant_copi.BodyLimit.{Message, disconnect, chunk, refused, read_body, limit_body}
use trust_gate_merchant_copi.BodyLimit.Exact.{sent, ending, judge, body_limit_exact}

-- Five bytes in three chunks, and a client that leaves afterwards.
abbrev messages : List Message
messages = chunk (1 ∷ 2 ∷ []) true ∷ chunk [] true ∷ chunk (3 ∷ 4 ∷ 5 ∷ []) false ∷ disconnect ∷ []

body_limit_exact_example : limit_body 4 none messages ≡ judge 4 (sent messages) (ending messages)
body_limit_exact_example = body_limit_exact 4 none messages refl

four_are_too_few : limit_body 4 none messages ≡ refused
unfolding limit_body read_body
four_are_too_few = refl
