-- ===== src/Llm.antt =====
-- internal/llm/client.go: a question to the model, with repeats. What each HTTP request gets, and whether
-- the context ends while waiting for it, is a parameter.
use data_flow_agent_hub.Base.{
  ℕ, zero, suc, ◌+◌, Text, codes, same, leb, ◌==◌, decimal, ℤ, pos, negsuc, List, [], ◌∷◌, ◌++◌,
  not, ◌||◌, Option, none, some, if◌then◌else◌,
}
use data_flow_agent_hub.Sqlrun.Run.{Answer, ok, err}

-- the JSON of a reply
pub record ChatResponse : Type 0 where
  pub error : Option Text
  pub choices : List Text

-- what a request gets: no request, an error of the connection or of the body, or a status with its body
pub data HttpReply : Type 0 where
  no_request do_error body_error : Text → HttpReply
  status : ℕ → Text → HttpReply

pub record Client : Type 0 where
  pub api_key : Text
  pub max_retries : ℤ
  pub reply : ℕ → HttpReply
  pub is_done : ℕ → Option Text  -- the context, while waiting for an attempt
  pub unmarshal : Text → Answer ChatResponse

-- what a round of the loop does: it returns, or leaves an error for the next one
pub data Round : Type 0 where
  returns : Answer Text → Round
  again : Text → Round

unfoldable pub answer_of : Answer ChatResponse → Answer Text
answer_of (err e) = err e
answer_of (ok r) = elim r.error [
  | some message ↦ err (codes "api error: " ++ message)
  | none ↦ elim r.choices [ [] ↦ err (codes "empty choices") | c ∷ cs ↦ ok c ]
]

unfoldable pub round_of : Client → HttpReply → Round
round_of c (no_request e) = returns (err e)
round_of c (do_error e) = again e
round_of c (body_error e) = again (codes "read body: " ++ e)
round_of c (status code body) =
    if code == 429 || leb 500 code
    then again (codes "upstream " ++ decimal code)
    else if not (code == 200)
    then returns (err (codes "upstream " ++ (decimal code ++ (codes ": " ++ body))))
    else returns (answer_of (c.unmarshal body))

-- the wait before an attempt behind the first
unfoldable pub waited : Client → ℕ → Option Text
waited c zero = none
waited c (suc attempt) = c.is_done (suc attempt)

-- the loop, by the rounds left, with the number of the attempt and the last error
unfoldable pub attempts : Client → ℕ → ℕ → Text → Answer Text
attempts c zero attempt last = err last
attempts c (suc left) attempt last = elim (waited c attempt) [
  | some e ↦ err e
  | none ↦ elim (round_of c (c.reply attempt)) [
    | returns a ↦ a
    | again e ↦ attempts c left (attempt + 1) e
  ]
]

unfoldable pub retries : ℤ → ℕ
retries (pos zero) = 3
retries (pos (suc n)) = suc n
retries (negsuc n) = 3

-- `ChatCompletion`
unfoldable pub chat_completion : Client → Answer Text
chat_completion c =
    if same c.api_key []
    then err (codes "missing API key")
    else attempts c (retries c.max_retries) 0 (codes "exhausted retries")
