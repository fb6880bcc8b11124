-- ===== src/Task.antt =====
-- redfish_ctl/redfish_task_state.py, and the polling of a task in redfish_ctl/redfish_manager.py:
-- get_task_state, fetch_task.
pub mod Laws
pub mod Timeout
mod Tests
use redfish_ctl.Common.{
  ℕ, zero, suc, ◌+◌, ◌*◌, ◌-◌, String, ◌<>◌, ◌==◌, Bool, true, false, not, ◌&&◌, ◌||◌, Option, none,
  some, List, [], ◌∷◌, leb, ltb, ◌=?◌, if◌then◌else◌,
}
use redfish_ctl.Common.Dict.{Dict, lookup}
use redfish_ctl.Common.Effect.{Result, ok, raised, Exec, pure, raise, ◌>>=◌}
use redfish_ctl.Common.Text.{is_empty, strip}
use redfish_ctl.Json.{Json, str, dict, props, get}
use redfish_ctl.Http.{Response, Body, decoded, undecodable, Exn, authentication_failed}
use Prim.Native.Char.{code}

pub data TaskStatus : Type 0 where
  healthy warning critical : TaskStatus

pub data TaskState : Type 0 where
  new starting running suspended interrupted pending stopping completed killed exception service :
      TaskState
  cancelling cancelled : TaskState

abbrev task_states : Dict TaskState
task_states =
    ("New", new)
    ∷ ("Starting", starting)
    ∷ ("Running", running)
    ∷ ("Suspended", suspended)
    ∷ ("Interrupted", interrupted)
    ∷ ("Pending", pending)
    ∷ ("Stopping", stopping)
    ∷ ("Completed", completed)
    ∷ ("Killed", killed)
    ∷ ("Exception", exception)
    ∷ ("Service", service)
    ∷ ("Cancelling", cancelling)
    ∷ ("Cancelled", cancelled)
    ∷ []

abbrev task_statuses : Dict TaskStatus
task_statuses = ("OK", healthy) ∷ ("Warning", warning) ∷ ("Critical", critical) ∷ []

abbrev pub is_terminal : TaskState → Bool
is_terminal completed = true
is_terminal killed = true
is_terminal cancelled = true
is_terminal exception = true
is_terminal _ = false

-- The place of a member, by which members are compared.
abbrev pub place : TaskState → ℕ
place new = 0
place starting = 1
place running = 2
place suspended = 3
place interrupted = 4
place pending = 5
place stopping = 6
place completed = 7
place killed = 8
place exception = 9
place service = 10
place cancelling = 11
place cancelled = 12

abbrev pub same_state : TaskState → TaskState → Bool
same_state a b = place a =? place b

-- _coerce
abbrev coerce {ℓ} : {A : Type ℓ} → Dict A → Json → Option A
coerce members (str s) = lookup s members
coerce members v = none

-- get_task_state
unfoldable pub get_task_state : Response → Option TaskState × Option TaskStatus
unfolding lookup get
get_task_state response = elim response.body [
  | undecodable text ↦ (none, none)
  | decoded v ↦ elim v [
    | dict fs ↦ (
      coerce task_states (get (props fs) "TaskState"),
      coerce task_statuses (get (props fs) "TaskStatus"),
    )
    | _ ↦ (none, none)
  ]
]

-- The digits of a number behind those read, with single underscores between digits.
digits : ℕ → Bool → String → Option ℕ
digits n after_digit String.[] = if after_digit then some n else none
digits n after_digit (String.◌∷◌ c s) =
    if leb b'0' (code c) && leb (code c) b'9'
    then digits (n * 10 + (code c - b'0')) true s
    else if (code c =? b'_') && after_digit
    then digits n false s
    else none

-- int(text), where a negative number gives 0; `none` where it raises. Digits are ASCII.
unfoldable pub int_of : String → Option ℕ
unfolding digits
int_of String.[] = none
int_of (String.◌∷◌ c s) =
    if code c =? b'-'
    then (elim (digits 0 false s) [ none ↦ none | some n ↦ some 0 ])
    else if code c =? b'+'
    then digits 0 false s
    else digits 0 false (String.◌∷◌ c s)

-- The header Retry-After, and 0 if it is missing or not a number. A negative one is dropped by `max` below.
unfoldable pub retry_after_of : Response → ℕ
unfolding int_of strip
retry_after_of response = elim response.retry_after [
  | none ↦ 0
  | some text ↦ elim (int_of (strip text)) [ none ↦ 0 | some n ↦ n ]
]

abbrev pub max : ℕ → ℕ → ℕ
max m n = if leb m n then n else m

-- What the code reads from a clock is in ticks, in place of seconds with a fraction.
pub record Settings : Type 0 where
  pub url : String
  pub sleep_time : ℕ
  pub wait_for_state : Option TaskState
  pub timeout : Option ℕ

-- What one answer means: the wait ends, it fails, or the next poll comes after a delay.
pub data Verdict : Type 0 where
  stop : Option TaskState → Verdict
  failure : Exn → Verdict
  again : Option TaskState → ℕ → Verdict

-- `if state is not None: task_state = state`
abbrev pub last_seen : Option TaskState → Option TaskState → Option TaskState
last_seen (some state) seen = some state
last_seen none seen = seen

abbrev pub awaited : Option TaskState → Option TaskState → Bool
awaited (some wanted) (some state) = same_state wanted state
awaited wanted seen = false

abbrev pub has_ended : Option TaskState → Bool
has_ended none = false
has_ended (some state) = is_terminal state

-- The task monitor is gone, or the service fails.
abbrev pub stops_polling : ℕ → Bool
stops_polling code = (code =? 404) || ((code =? 410) || leb 500 code)

-- The body of the loop up to the delay.
unfoldable pub judge : Settings → Option TaskState → Response → Verdict
judge settings seen response =
    let code = response.status_code in
    let now_seen = last_seen (get_task_state response).0 seen in
    if code =? 401
    then failure (authentication_failed "task service returned 401.")
    else if stops_polling code
    then stop seen
    else if awaited settings.wait_for_state now_seen || has_ended now_seen
    then stop now_seen
    else again now_seen (max settings.sleep_time (retry_after_of response))

-- The GET of the manager, and the clock.
pub record Service : Type 1 where
  pub State : Type 0
  pub api_get_call : String → Exec State Exn Response
  pub monotonic : State → ℕ
  pub sleep : ℕ → State → State

-- timeout is not None and elapsed >= timeout
abbrev pub timed_out : Option ℕ → ℕ → Bool
timed_out none elapsed = false
timed_out (some limit) elapsed = leb limit elapsed

module _ (V : Service) (settings : Settings) (started : ℕ) where
  abbrev Loop : Type 0
  Loop = Exec V.State Exn (Option (Option TaskState))

  after_verdict : (Option TaskState → Loop) → Verdict → Loop
  after_verdict rest (stop result) t = (ok (some result), t)
  after_verdict rest (failure e) t = (raised e, t)
  after_verdict rest (again seen delay) t =
      if timed_out settings.timeout (V.monotonic t - started)
      then (ok (some seen), t)
      else rest seen (V.sleep delay t)

  after_reply : (Option TaskState → Loop) → Option TaskState → Result Exn Response → Loop
  after_reply rest seen (raised e) t = (raised e, t)
  after_reply rest seen (ok response) t = after_verdict rest (judge settings seen response) t

  -- The loop on fuel: `none` if the fuel is used up, else what is returned.
  unfoldable pub poll : ℕ → Option TaskState → Loop
  unfolding after_reply after_verdict
  poll zero seen s = (ok none, s)
  poll (suc n) seen s =
      let (reply, t) = V.api_get_call settings.url s in after_reply (poll n) seen reply t

module _ (V : Service) (settings : Settings) where
  -- fetch_task
  unfoldable pub fetch_task : ℕ → Exec V.State Exn (Option (Option TaskState))
  unfolding poll
  fetch_task fuel s = poll V settings (V.monotonic s) fuel none s
