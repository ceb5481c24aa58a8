-- ===== src/Referee/Http.antt =====
-- `class Handler` of referee/service.py. A request is what the handler reads of it; an answer is a
-- status with a JSON body, or a connection that an exception closes without one.
use k3df.Base.{ℕ, Bool, true, false, not, ◌&&◌, ◌||◌, String, Option, none, some, codes, length}
use k3df.Base.{any, ltb, leb, if◌then◌else◌, ◌==◌, Result, ok, raised, Error}
use k3df.Base.Int.{ℤ, pos, negsuc}
use k3df.Json.{Value, null, bool, int, str, obj, end, field, get}
use k3df.Text.{before, int_of_text}
use k3df.Referee.Files.{valid_seed}
use k3df.Referee.State.{
  Referee, Write, Outcome, budget_exhausted, rejected, judged, won, submit, authorized,
}

pub record Request : Type 0 where
  pub path : String
  pub seed_header : Option String
  pub content_type : Option String
  pub content_length : Option String
  -- `json.loads` of the first bytes of the body; `none` where it raises.
  pub body : ℕ → Option Value

pub data Answer : Type 0 where
  reply : ℕ → Value → Answer
  dropped : Error → Answer

abbrev pub rejected_body : Value
rejected_body = obj (field "outcome" (str "rejected") end)

abbrev word : Bool → String
word true = "duplicate"
word false = "accepted"

-- The dict that `submit` returns.
unfoldable pub outcome_json : Outcome → Value
outcome_json budget_exhausted = obj (field "outcome" (str "budget_exhausted") end)
outcome_json rejected = rejected_body
outcome_json (judged duplicate id n w) = obj (
    field "outcome" (str (word duplicate)) (
      field "flag_id" (str id) (
        field "accepted_count" (int (pos n))
          (field "total" (int (pos 3)) (field "won" (bool w) end)))))

unfoldable pub status_json : Referee → Value
status_json r = obj (
    field "accepted_count" (int (pos (length r.accepted)))
      (field "total" (int (pos 3)) (field "won" (bool (won r)) end)))

abbrev check_authorized : Result Bool → Option Answer
check_authorized (ok true) = none
check_authorized (ok false) = some (reply 401 rejected_body)
check_authorized (raised e) = some (dropped e)

-- `_authorize`: the answer already sent, or nothing for a request that may go on.
unfoldable pub refusal : Referee → Option String → Option Answer
refusal r none = some (reply 401 rejected_body)
refusal r (some seed) =
    if valid_seed seed then check_authorized (authorized seed r) else some (reply 400 rejected_body)

unfoldable pub do_get : Referee → Request → Answer
do_get r q =
    if q.path == "/health"
    then reply 200 (obj (field "status" (str "ok") end))
    else if not (q.path == "/ctf/referee/v1/status")
    then reply 404 rejected_body
    else elim (refusal r q.seed_header) [ some a ↦ a | none ↦ reply 200 (status_json r) ]

abbrev pub text_or : String → Option String → String
text_or d none = d
text_or d (some s) = s

abbrev candidate_field : Option Value → Value
candidate_field (some (obj d)) = get "candidate" d
candidate_field _ = null

abbrev read_body : (ℕ → Option Value) → Option ℤ → Option Value
read_body body none = none
read_body body (some (negsuc _)) = none
read_body body (some (pos n)) = if ltb 0 n && leb n 4096 then body n else none

-- The `try` block: `None` on a bad length, a body that is no dict, or any exception.
unfoldable pub candidate_of : Request → Value
candidate_of q = candidate_field (read_body q.body (int_of_text (text_or "0" q.content_length)))

-- A text of at most 128 characters with no control character.
unfoldable pub well_formed : Value → Option String
well_formed (str s) =
    if ltb 128 (length (codes s)) || any (λ c. ltb c 32) (codes s) then none else some s
well_formed _ = none

unfoldable pub send_outcome : Result Outcome × Referee → Answer × Referee
send_outcome (ok o, r) = (reply 200 (outcome_json o), r)
send_outcome (raised e, r) = (dropped e, r)

abbrev pub submit_value : Write → Referee → Option String → Answer × Referee
submit_value w r none = (reply 400 rejected_body, r)
submit_value w r (some candidate) = send_outcome (submit w candidate r)

abbrev pub wrong_target : Request → Bool
wrong_target q =
    not (q.path == "/ctf/referee/v1/submissions")
    || not (before b';' (text_or "" q.content_type) == "application/json")

unfoldable pub do_post : Write → Referee → Request → Answer × Referee
unfolding send_outcome
do_post w r q =
    if wrong_target q then (reply 400 rejected_body, r) else elim (refusal r q.seed_header) [
      | some a ↦ (a, r)
      | none ↦ submit_value w r (well_formed (candidate_of q))
    ]
