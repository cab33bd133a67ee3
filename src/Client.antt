-- ===== src/Client.antt =====
-- castai/client.go: how a report is sent, and how the answers of the server are read. An error is its
-- text. The answers to the requests are arguments.
pub mod Once
use Prim.Native.String.{◌++◌}
use kvisor.Base.{
  ℕ, zero, suc, String, List, [], ◌∷◌, Option, none, some, Bool, true, false, ltb, if◌then◌else◌,
  ◌⊎◌, inl, inr,
}

-- What `httpClient.Do` answers to a request: an error, or the status code and the body.
pub data Answer : Type 0 where
  unsent : String → Answer
  answered : ℕ → String → Answer

-- The condition of the backoff, for one attempt: whether it is done, and its error.
unfoldable pub attempt : String → Answer → Bool × Option String
attempt report_type (unsent err) = (false, some ("sending request " ++ report_type ++ ": " ++ err))
attempt report_type (answered code body) = (true, none)

-- The answer to the last of a number of attempts.
abbrev pub last_answer : ℕ → List Answer → Option Answer
last_answer zero answers = none
last_answer (suc n) [] = none
last_answer (suc zero) (x ∷ answers) = some x
last_answer (suc (suc n)) (x ∷ answers) = last_answer (suc n) answers

-- What `sendReport` did: the requests that it made, and its error.
pub record Sent : Type 0 where
  pub requests : ℕ
  pub result : Option String

-- `fmt_int` is `%d`; `retry` is `wait.ExponentialBackoffWithContext`: the attempts that it made, and
-- its error, given the answers to the attempts before the context ends.
module _ (fmt_int : ℕ → String)
    (retry : (Answer → Bool × Option String) → List Answer → ℕ × Option String) where
  -- The check of the response.
  unfoldable pub check_response : String → String → Answer → Option String
  check_response url report_type (unsent err) = none
  check_response url report_type (answered code body) =
      if ltb 399 code
      then some (
          report_type
          ++ " request error status_code="
          ++ fmt_int code
          ++ " body="
          ++ body
          ++ " url="
          ++ url)
      else none

  -- `sendReport` after the attempts; `none` is the panic on a response that is nil.
  unfoldable pub finish_report : String → String → List Answer → ℕ × Option String → Option Sent
  unfolding check_response
  finish_report url report_type answers (made, some err) =
      some (record { requests = made; result = some err })
  finish_report url report_type answers (made, none) = elim (last_answer made answers) [
    | none ↦ none
    | some answer ↦
        some (record { requests = made; result = check_response url report_type answer })
  ]

  -- `sendReport`, with the errors of `url.Parse` and of `http.NewRequestWithContext`.
  unfoldable pub send_report :
      String → String → Option String → Option String → List Answer → Option Sent
  unfolding attempt finish_report
  send_report url report_type url_error request_error answers = elim url_error [
    | some err ↦ some (record { requests = 0; result = some ("invalid url: " ++ err) })
    | none ↦ elim request_error [
      | some err ↦ some (record {
        requests = 0;
        result = some ("creating request for report type " ++ report_type ++ ": " ++ err);
      })
      | none ↦ finish_report url report_type answers (retry (attempt report_type) answers)
    ]
  ]

  -- The check of a response of resty, whose `IsError` is a status code above 399.
  unfoldable pub check_rest : String → Answer → String ⊎ String
  check_rest what (unsent err) = inl (what ++ ": " ++ err)
  check_rest what (answered code body) =
      if ltb 399 code
      then inl (what ++ ": request error status_code=" ++ fmt_int code ++ " body=" ++ body)
      else inr body

  -- `SendLogs`.
  unfoldable pub send_logs : Answer → Option String
  unfolding check_rest
  send_logs answer = elim (check_rest "sending logs" answer) [
    | inl err ↦ some err
    | inr body ↦ none
  ]

  -- `PostTelemetry` and `GetSyncState` after the request; `unmarshal` is `json.Unmarshal`.
  unfoldable pub post_telemetry : {A : Type 0} → (String → String ⊎ A) → Answer → String ⊎ A
  unfolding check_rest
  post_telemetry unmarshal answer = elim (check_rest "sending telemetry" answer) [
    | inl err ↦ inl err
    | inr body ↦ elim (unmarshal body) [
      | inl err ↦ inl ("unmarshal telemetry response: " ++ err)
      | inr response ↦ inr response
    ]
  ]

  unfoldable pub get_sync_state : {A : Type 0} → (String → String ⊎ A) → Answer → String ⊎ A
  unfolding check_rest
  get_sync_state unmarshal answer = elim (check_rest "calling sync state" answer) [
    | inl err ↦ inl err
    | inr body ↦ elim (unmarshal body) [
      | inl err ↦ inl ("unmarshal sync state: " ++ err)
      | inr response ↦ inr response
    ]
  ]
