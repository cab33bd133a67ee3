-- ===== src/Client/Once.antt =====
-- A report is sent with one request, and when that counts as delivered.
use kvisor.Base.{
  ℕ, ◌≤◌, String, List, [], ◌∷◌, Option, none, some, Bool, true, ◌≡◌, ◌≢◌, ◌↔◌, refl, ◌⊎◌, inl, inr,
  arith, sym, subst,
}
use kvisor.Client.{
  Answer, unsent, answered, attempt, Sent, check_response, finish_report, send_report,
}

-- What `wait.ExponentialBackoffWithContext` is documented to do at the first attempt: it returns as
-- soon as the condition is done or has an error; if the context ends before, it makes no attempt
-- and returns an error.
pub record RetryLaws (retry : (Answer → Bool × Option String) → List Answer → ℕ × Option String)
    : Type 0 where
  pub stops :
      (cond : Answer → Bool × Option String) (x : Answer) (xs : List Answer)
      → (((cond x).0 ≡ true) ⊎ ((cond x).1 ≢ none))
      → retry cond (x ∷ xs) ≡ (1, (cond x).1)
  pub ended :
      (cond : Answer → Bool × Option String) → ((retry cond []).0 ≡ 0) × ((retry cond []).1 ≢ none)

-- The first request is answered, with a status code of at most 399.
abbrev pub Accepted : List Answer → Type 0
Accepted [] = ⊥
Accepted (unsent err ∷ answers) = ⊥
Accepted (answered code body ∷ answers) = code ≤ 399

module _ (fmt_int : ℕ → String)
    (retry : (Answer → Bool × Option String) → List Answer → ℕ × Option String)
    (laws : RetryLaws retry) where
  -- What is left to show once the attempts are over.
  abbrev Delivered : Option Sent → List Answer → Type 0
  Delivered o answers =
      (sent : Sent) × (o ≡ some sent)
      × (sent.requests ≤ 1)
      × ((sent.result ≡ none) ↔ Accepted answers)

  no_attempt :
      (url report_type : String) (p : ℕ × Option String)
      → p.0 ≡ 0
      → p.1 ≢ none
      → Delivered (finish_report fmt_int retry url report_type [] p) []
  unfolding finish_report
  no_attempt url report_type (made, none) zero_made failed = absurd (failed refl)
  no_attempt url report_type (made, some err) zero_made failed =
      (_, refl, omega (arith, zero_made), ground arith)

  one_attempt :
      (url report_type : String) (answer : Answer) (answers : List Answer)
      → Delivered
          (finish_report fmt_int retry url report_type
            (answer ∷ answers)
            (1, (attempt report_type answer).1))
          (answer ∷ answers)
  unfolding finish_report attempt check_response
  one_attempt url report_type (unsent err) answers = (_, refl, omega arith, ground arith)
  one_attempt url report_type (answered code body) answers = (_, refl, omega arith, ground arith)

  attempt_stops :
      (report_type : String) (answer : Answer)
      → ((attempt report_type answer).0 ≡ true) ⊎ ((attempt report_type answer).1 ≢ none)
  unfolding attempt
  attempt_stops report_type (unsent err) = inr (λ e. cc)
  attempt_stops report_type (answered code body) = inl refl

  attempts_over :
      (url report_type : String) (answers : List Answer)
      → Delivered
          (finish_report fmt_int retry url report_type answers
            (retry (attempt report_type) answers))
          answers
  attempts_over url report_type [] =
      let (made, failed) = laws.ended (attempt report_type) in
      no_attempt url report_type (retry (attempt report_type) []) made failed
  attempts_over url report_type (answer ∷ answers) =
      subst
        (λ p.
          Delivered (finish_report fmt_int retry url report_type (answer ∷ answers) p)
            (answer ∷ answers))
        (sym (laws.stops (attempt report_type) answer answers (attempt_stops report_type answer)))
        (one_attempt url report_type answer answers)

  -- A report is sent with one request at most, though the backoff has three steps, and `sendReport`
  -- never panics. It reports success exactly if the URL and the request are well formed, and the
  -- first request is answered with a status code of at most 399: a request that could not be sent
  -- is not made again. This holds if the backoff does at its first attempt what it is documented to
  -- do.
  pub send_report_once :
      (url report_type : String) (url_error request_error : Option String) (answers : List Answer)
      → (sent : Sent) × (send_report fmt_int retry url report_type url_error request_error answers
          ≡ some sent)
        × (sent.requests ≤ 1)
        × ((sent.result ≡ none) ↔ ((url_error ≡ none) × (request_error ≡ none) × Accepted answers))
  unfolding send_report
  send_report_once url report_type (some err) request_error answers =
      (_, refl, omega arith, ground arith)
  send_report_once url report_type none (some err) answers = (_, refl, omega arith, ground arith)
  send_report_once url report_type none none answers =
      let (sent, same, few, accepted) = attempts_over url report_type answers in
      (
        sent,
        same,
        few,
        (λ ok. (refl, refl, accepted.0 ok), λ all. let (_, _, ok) = all in accepted.1 ok),
      )
