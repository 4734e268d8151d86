-- ===== src/Middleware/RequestLimits.antt =====
-- app/core/request_limits.py: the limit on the bodies of requests. `int` on a header's value is a
-- parameter; a negative length counts as 0, which is never too large either.
use metroflow_ai_backend.Common.{
  ℕ, ◌+◌, ◌≤◌, ◌≡◌, Bool, true, false, ◌||◌, not, Option, none, some, List, [], ◌∷◌, ltb,
  if◌then◌else◌, ◌==◌, ite, arith,
}

-- What a request ends with: the application's own answer, or 413, with the declared size if it was
-- refused for that.
pub data Outcome : Type 0 where
  answered : Outcome
  payload_too_large : Option ℕ → Outcome

-- A message of the server: `http.request` with the size of its body, or another one.
pub data Message : Type 0 where
  http_request : ℕ → Message
  other_message : Message

abbrev pub body_size : Message → ℕ
body_size (http_request n) = n
body_size other_message = 0

module _ {Name Value : Type 0} (dec : Discrete Name) (content_length : Name)
    (int : Value → Option ℕ) where
  -- `_declared_content_length`: the first header of that name decides.
  abbrev pub declared_content_length : List (Name × Value) → Option ℕ
  declared_content_length [] = none
  declared_content_length ((name, value) ∷ headers) =
      ite (dec name content_length) (int value) (declared_content_length headers)

  -- The calls of `limited_receive`, for the messages that the application asks for: whether one of
  -- them raises `PayloadTooLarge`.
  abbrev pub limited_receive : ℕ → ℕ → List Message → Bool
  limited_receive max_body_size total_received [] = false
  limited_receive max_body_size total_received (message ∷ messages) =
      let total = total_received + body_size message in
      let rest = limited_receive max_body_size total messages in
      elim message [
        | http_request _ ↦ if ltb max_body_size total then true else rest
        | other_message ↦ rest
      ]

  -- `__call__`, for an application that reads the given messages.
  unfoldable pub call : Bool → ℕ → List (Name × Value) → List Message → Outcome
  call is_http max_body_size headers messages =
      let read : Outcome =
        if limited_receive max_body_size 0 messages then payload_too_large none else answered in
      if not is_http || max_body_size == 0
      then answered
      else elim (declared_content_length headers) [
        | none ↦ read
        | some n ↦ if ltb max_body_size n then payload_too_large (some n) else read
      ]

  abbrev pub body_bytes : List Message → ℕ
  body_bytes [] = 0
  body_bytes (message ∷ messages) = body_size message + body_bytes messages

  limited_receive_lem :
      (max_body_size total : ℕ) (messages : List Message)
      → total ≤ max_body_size
      → limited_receive max_body_size total messages
        ≡ ltb max_body_size (total + body_bytes messages)
  limited_receive_lem max_body_size total [] h = ground arith
  limited_receive_lem max_body_size total (http_request n ∷ messages) h =
      ground (arith, limited_receive_lem max_body_size (total + n) messages)
  limited_receive_lem max_body_size total (other_message ∷ messages) h =
      ground (arith, limited_receive_lem max_body_size (total + 0) messages)

  -- The limit is on for HTTP requests where it is not 0. Then a request is refused exactly if it
  -- declares more bytes than allowed, or if the application reads more bytes than allowed in all,
  -- however they are split into messages and whatever is declared.
  pub call_limits :
      (is_http : Bool) (max_body_size : ℕ) (headers : List (Name × Value)) (messages : List Message)
      → call is_http max_body_size headers messages ≡ (
          let read =
            if ltb max_body_size (body_bytes messages) then payload_too_large none else answered in
          if not is_http || max_body_size == 0
          then answered
          else elim (declared_content_length headers) [
            | none ↦ read
            | some n ↦ if ltb max_body_size n then payload_too_large (some n) else read
          ])
  unfolding call
  call_limits is_http max_body_size headers messages =
      ground (arith, limited_receive_lem max_body_size 0 messages)
