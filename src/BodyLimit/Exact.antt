-- ===== src/BodyLimit/Exact.antt =====
-- The middleware of api/body_limit.py against what the client sent.
use trust_gate_merchant_copi.Base.{
  ◌≡◌, refl, sym, ap, ◌∙◌, subst, inl, inr, ℕ, ◌+◌, ◌≤◌, Bool, true, false, Option, List, [], ◌∷◌,
  ◌++◌, ltb, if◌then◌else◌, length, arith, Bool-cases,
}
use trust_gate_merchant_copi.BodyLimit.{
  Message, disconnect, chunk, Outcome, waiting, left, refused, delivered, read_body, declares_more,
  limit_body, replay,
}

-- How the client's request goes on: it is not finished, or the client left, or these messages follow
-- its end.
pub data Ending : Type 0 where
  unfinished abandoned : Ending
  finished : List Message → Ending

-- All the bytes that the client sent for this request, however it cut them.
abbrev pub sent : List Message → List ℕ
sent [] = []
sent (disconnect ∷ rest) = []
sent (chunk bytes true ∷ rest) = bytes ++ sent rest
sent (chunk bytes false ∷ rest) = bytes

abbrev pub ending : List Message → Ending
ending [] = unfinished
ending (disconnect ∷ rest) = abandoned
ending (chunk bytes true ∷ rest) = ending rest
ending (chunk bytes false ∷ rest) = finished rest

-- What is right for a body of these bytes.
abbrev pub at_end : List ℕ → Ending → Outcome
at_end body unfinished = waiting
at_end body abandoned = left
at_end body (finished rest) = delivered body rest

abbrev pub judge : ℕ → List ℕ → Ending → Outcome
judge limit body e = if ltb limit (length body) then refused else at_end body e

length-append : (xs ys : List ℕ) → length (xs ++ ys) ≡ length xs + length ys
length-append [] ys = omega arith
length-append (x ∷ xs) ys = omega (arith, length-append xs ys)

append_assoc : (xs ys zs : List ℕ) → (xs ++ ys) ++ zs ≡ xs ++ (ys ++ zs)
append_assoc [] ys zs = refl
append_assoc (x ∷ xs) ys zs = ap (λ l. x ∷ l) (append_assoc xs ys zs)

append-nil : (xs : List ℕ) → xs ++ [] ≡ xs
append-nil [] = refl
append-nil (x ∷ xs) = ap (λ l. x ∷ l) (append-nil xs)

over : (limit a b : ℕ) → ltb limit a ≡ true → a ≤ b → ltb limit b ≡ true
over limit a b h k = ground (arith, h, k)

module _ (limit : ℕ) (body bytes : List ℕ) (received : ℕ) (rest : List Message) where
  large_chunk :
      (more : Bool)
      → ltb limit (received + length bytes) ≡ true
      → read_body limit body received (chunk bytes more ∷ rest) ≡ refused
  unfolding read_body
  large_chunk more h = rw (read_body, h) refl

  middle_chunk :
      ltb limit (received + length bytes) ≡ false
      → read_body limit body received (chunk bytes true ∷ rest)
        ≡ read_body limit (body ++ bytes) (received + length bytes) rest
  unfolding read_body
  middle_chunk h = rw (read_body, h) refl

  last_chunk :
      ltb limit (received + length bytes) ≡ false
      → read_body limit body received (chunk bytes false ∷ rest) ≡ delivered (body ++ bytes) rest
  unfolding read_body
  last_chunk h = rw (read_body, h) refl

judged :
    (limit : ℕ) (body : List ℕ) (e : Ending)
    → ltb limit (length body) ≡ true
    → judge limit body e ≡ refused
judged limit body e h = rw h refl

judged_at_end :
    (limit : ℕ) (body : List ℕ) (e : Ending)
    → ltb limit (length body) ≡ false
    → judge limit body e ≡ at_end body e
judged_at_end limit body e h = rw h refl

-- With no more than the limit kept so far, the loop comes to what is right for the whole body.
loop_exact :
    (limit : ℕ) (body : List ℕ) (messages : List Message)
    → ltb limit (length body) ≡ false
    → read_body limit body (length body) messages
      ≡ judge limit (body ++ sent messages) (ending messages)
unfolding read_body
loop_exact limit body [] h =
    sym
      (ap (λ l. judge limit l unfinished) (append-nil body) ∙ judged_at_end limit body unfinished h)
loop_exact limit body (disconnect ∷ rest) h =
    sym (ap (λ l. judge limit l abandoned) (append-nil body) ∙ judged_at_end limit body abandoned h)
loop_exact limit body (chunk bytes false ∷ rest) h =
    let size = length-append body bytes in
    elim (Bool-cases (ltb limit (length body + length bytes))) [
      | inl large ↦
          large_chunk limit body bytes (length body) rest false large
          ∙ sym (judged limit (body ++ bytes) (finished rest) (ap (ltb limit) size ∙ large))
      | inr small ↦
          last_chunk limit body bytes (length body) rest small
          ∙ sym (judged_at_end limit (body ++ bytes) (finished rest) (ap (ltb limit) size ∙ small))
    ]
loop_exact limit body (chunk bytes true ∷ rest) h =
    let size = length-append body bytes in
    let whole = append_assoc body bytes (sent rest) in
    elim (Bool-cases (ltb limit (length body + length bytes))) [
      | inl large ↦
          large_chunk limit body bytes (length body) rest true large
          ∙ sym (
              judged limit (body ++ (bytes ++ sent rest)) (ending rest) (
                over limit (length body + length bytes) (length (body ++ (bytes ++ sent rest)))
                  large
                  (omega (
                    arith,
                    length-append body (bytes ++ sent rest),
                    length-append bytes (sent rest),
                  ))))
      | inr small ↦
          middle_chunk limit body bytes (length body) rest small
          ∙ ap (λ n. read_body limit (body ++ bytes) n rest) (sym size)
          ∙ loop_exact limit (body ++ bytes) rest (ap (ltb limit) size ∙ small)
          ∙ ap (λ l. judge limit l (ending rest)) whole
    ]

-- However the client cuts its body and whatever it declares, unless it declares more than the limit
-- the middleware does what is right for the bytes that were sent: it refuses them exactly when there
-- are more than the limit, and otherwise delivers all of them, byte for byte, when the last has come.
pub body_limit_exact :
    (limit : ℕ) (declared : Option ℕ) (messages : List Message)
    → declares_more limit declared ≡ false
    → limit_body limit declared messages ≡ judge limit (sent messages) (ending messages)
unfolding limit_body
body_limit_exact limit declared messages honest =
    rw honest (loop_exact limit [] messages (ground arith))

at_end-delivered :
    (sent_bytes body : List ℕ) (e : Ending) (rest : List Message)
    → at_end sent_bytes e ≡ delivered body rest
    → (body ≡ sent_bytes) × (finished rest ≡ e)
at_end-delivered sent_bytes body unfinished rest h = absurd (cc h)
at_end-delivered sent_bytes body abandoned rest h = absurd (cc h)
at_end-delivered sent_bytes body (finished more) rest h = (cc h, cc h)

small_enough : (limit n : ℕ) → ltb limit n ≡ false → n ≤ limit
small_enough limit n h = ground (arith, h)

-- What the application receives is the request as it was sent: the same bytes, followed by the same
-- messages of the transport.
pub replay-sent :
    (limit : ℕ) (declared : Option ℕ) (messages rest : List Message) (body : List ℕ)
    → limit_body limit declared messages ≡ delivered body rest
    → (sent (replay body rest) ≡ sent messages)
      × (ending (replay body rest) ≡ ending messages)
      × (length body ≤ limit)
unfolding limit_body
replay-sent limit declared messages rest body h = elim (Bool-cases (declares_more limit declared)) [
  | inl large ↦ absurd (cc (rw large at h))
  | inr honest ↦
      let e = sym (body_limit_exact limit declared messages honest) ∙ h in
      elim (Bool-cases (ltb limit (length (sent messages)))) [
        | inl large ↦ absurd (cc (sym (judged limit (sent messages) (ending messages) large) ∙ e))
        | inr small ↦
            let (bytes, end) =
              at_end-delivered (sent messages) body (ending messages) rest
                (sym (judged_at_end limit (sent messages) (ending messages) small) ∙ e) in
            (
              bytes,
              end,
              subst (λ l. length l ≤ limit) (sym bytes)
                  (small_enough limit (length (sent messages)) small),
            )
      ]
]
