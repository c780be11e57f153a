-- ===== src/Runner/Qmp.antt =====
-- `_qmp_wait_response`, on the lines that the connection brings.
use rules_ostest.Runner.Loop.{same_id}
use rules_ostest.Serial.Feed.{QmpEvent}
use mathlib.Core.List.{append_assoc, append-nil}
use mathlib.Core.Path.{ap₂}
use rules_ostest.Base.{
  ℕ, String, ◌≡◌, sym, ap, ◌∙◌, inl, inr, true, false, Option, some, List, [], ◌∷◌, ◌++◌,
  if◌then◌else◌, Bool-cases, All, ok-injective, Result, ok, err,
}

-- A decoded response: its `error`, its `return`, or neither.
pub data Answer : Type 0 where
  failed neither : Answer
  returned : String → Answer

-- A line of the connection; `broken` is a read that raises. Behind the last line it is closed.
pub data Line : Type 0 where
  event : QmpEvent → Line
  reply : Option ℕ → Answer → Line
  not_json broken : Line

pub data QmpError : Type 0 where
  closed invalid_json read_failed command_failed malformed_response : QmpError

-- What is returned, the events that wait, and the lines that were not read.
pub record Received : Type 0 where
  pub value : String
  pub pending_events : List QmpEvent
  pub unread : List Line

abbrev pub take_answer : Answer → List QmpEvent → List Line → Result QmpError Received
take_answer failed events lines = err command_failed
take_answer neither events lines = err malformed_response
take_answer (returned value) events lines =
    ok (record { value = value; pending_events = events; unread = lines })

unfoldable pub wait_response : ℕ → List Line → List QmpEvent → Result QmpError Received
wait_response request_id [] events = err closed
wait_response request_id (broken ∷ lines) events = err read_failed
wait_response request_id (not_json ∷ lines) events = err invalid_json
wait_response request_id (event e ∷ lines) events =
    wait_response request_id lines (events ++ (e ∷ []))
wait_response request_id (reply id answer ∷ lines) events =
    let later = wait_response request_id lines events in
    if same_id id (some request_id) then take_answer answer events lines else later

-- A line that is no response to the request.
abbrev IsOther : ℕ → Line → Type 0
IsOther request_id (event e) = Unit
IsOther request_id (reply id answer) = same_id id (some request_id) ≡ false
IsOther request_id not_json = ⊥
IsOther request_id broken = ⊥

-- The events among the lines.
abbrev events_of : List Line → List QmpEvent
events_of [] = []
events_of (event e ∷ lines) = e ∷ events_of lines
events_of (_ ∷ lines) = events_of lines

-- `got` is the value of the first response to the request, behind `before`.
abbrev pub IsResponse : ℕ → List Line → List QmpEvent → Received → Type 0
IsResponse request_id lines events got =
    (before : List Line) × (id : Option ℕ) × (lines
      ≡ before ++ (reply id (returned got.value) ∷ got.unread))
    × (same_id id (some request_id) ≡ true)
    × All (IsOther request_id) before
    × (got.pending_events ≡ events ++ events_of before)

take_answer-ok :
    (answer : Answer) (events : List QmpEvent) (lines : List Line) (got : Received)
    → take_answer answer events lines ≡ ok got
    → (answer ≡ returned got.value) × (got.unread ≡ lines) × (got.pending_events ≡ events)
take_answer-ok failed events lines got h = cc
take_answer-ok neither events lines got h = cc
take_answer-ok (returned value) events lines got h =
    let e = sym (ok-injective h) in
    (ap (λ r. returned r.value) (sym e), ap (λ r. r.unread) e, ap (λ r. r.pending_events) e)

-- When a wait for the response to a request returns, the value is that of the first response
-- among the lines that has the id of the request, the lines before it are events and responses of
-- other ids, those events are put behind the ones that wait, in their order, and what follows the
-- response is not read.
pub wait_response-IsResponse :
    (request_id : ℕ) (lines : List Line) (events : List QmpEvent) (got : Received)
    → wait_response request_id lines events ≡ ok got
    → IsResponse request_id lines events got
unfolding wait_response
wait_response-IsResponse request_id [] events got h = cc
wait_response-IsResponse request_id (broken ∷ lines) events got h = cc
wait_response-IsResponse request_id (not_json ∷ lines) events got h = cc
wait_response-IsResponse request_id (event e ∷ lines) events got h =
    let (before, id, split, mine, others, waiting) =
      wait_response-IsResponse request_id lines (events ++ (e ∷ [])) got h in
    (
      event e ∷ before,
      id,
      ap (λ l. event e ∷ l) split,
      mine,
      (tt, others),
      waiting ∙ append_assoc events (e ∷ []) (events_of before),
    )
wait_response-IsResponse request_id (reply id answer ∷ lines) events got h =
    elim (Bool-cases (same_id id (some request_id))) [
      | inl mine ↦
          let (value, rest, waiting) = take_answer-ok answer events lines got (mine_taken mine h) in
          (
            [],
            id,
            ap₂ (λ a l. reply id a ∷ l) value (sym rest),
            mine,
            tt,
            waiting ∙ sym (append-nil events),
          )
      | inr other ↦
          let (before, id', split, mine, others, waiting) =
            wait_response-IsResponse request_id lines events got (passed_over other h) in
          (
            reply id answer ∷ before,
            id',
            ap (λ l. reply id answer ∷ l) split,
            mine,
            (other, others),
            waiting,
          )
    ]
  where
    mine_taken :
        same_id id (some request_id) ≡ true
        → wait_response request_id (reply id answer ∷ lines) events ≡ ok got
        → take_answer answer events lines ≡ ok got
    mine_taken e k = rw e at k

    passed_over :
        same_id id (some request_id) ≡ false
        → wait_response request_id (reply id answer ∷ lines) events ≡ ok got
        → wait_response request_id lines events ≡ ok got
    passed_over e k = rw e at k
