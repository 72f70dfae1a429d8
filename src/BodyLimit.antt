-- ===== src/BodyLimit.antt =====
-- api/body_limit.py: a request's body is counted as it arrives, refused once it passes the limit, and
-- replayed to the application in one piece.
mod Exact
mod Tests
use trust_gate_merchant_copi.Base.{
  ℕ, ◌+◌, Bool, true, false, Option, none, some, List, [], ◌∷◌, ◌++◌, ltb, ◌==◌, if◌then◌else◌,
  length,
}

-- `_DEFAULT_MAX_BODY_BYTES`
abbrev pub default_max_body : ℕ
default_max_body = 262144

-- `max_body_bytes`: the variable is unset or not all digits, or a number.
unfoldable pub max_body_bytes : Option ℕ → ℕ
max_body_bytes none = default_max_body
max_body_bytes (some n) = if ltb 0 n then n else default_max_body

-- A message of the transport: the client left, or a chunk of the body and whether more follows.
pub data Message : Type 0 where
  disconnect : Message
  chunk : List ℕ → Bool → Message

-- How the middleware ends, on the messages that came: it is waiting for another, the client left, it
-- refused the request, or the application has the body while these messages are still to come.
pub data Outcome : Type 0 where
  waiting left refused : Outcome
  delivered : List ℕ → List Message → Outcome

-- The loop: the bytes that are kept, and how many were received. A chunk that is empty is not kept.
unfoldable pub read_body : ℕ → List ℕ → ℕ → List Message → Outcome
read_body limit body received [] = waiting
read_body limit body received (disconnect ∷ rest) = left
read_body limit body received (chunk bytes more ∷ rest) =
    elim (ltb limit (received + length bytes)) [
      | true ↦ refused
      | false ↦ elim more [
        | true ↦ read_body limit (body ++ bytes) (received + length bytes) rest
        | false ↦ delivered (body ++ bytes) rest
      ]
    ]

abbrev pub declares_more : ℕ → Option ℕ → Bool
declares_more limit none = false
declares_more limit (some n) = ltb limit n

-- `BodySizeLimitMiddleware.__call__` of an HTTP request; `declared` is a `Content-Length` of digits.
unfoldable pub limit_body : ℕ → Option ℕ → List Message → Outcome
limit_body limit declared messages =
    if declares_more limit declared then refused else read_body limit [] 0 messages

-- `replay`: what the application receives, the body first and then the transport's own messages.
abbrev pub replay : List ℕ → List Message → List Message
replay body rest = chunk body false ∷ rest
