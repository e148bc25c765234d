-- ===== src/Session.antt =====
-- internal/runtime/session.go: the lifecycle of a session pump and the registry of sessions.
pub mod Lifecycle
pub mod Entries
pub mod Pump
use tubo.Base.{
  ℕ, ◌+◌, ◌-◌, Bool, true, false, not, ◌&&◌, ◌||◌, Option, none, some, List, [], ◌∷◌, ◌++◌, map,
  Bytes, same, is_empty, ◌==◌, if◌then◌else◌, Result, ok, ◌>>=◌, ◌>>◌, fail_if,
}

pub data SessionState : Type 0 where
  active closing closed : SessionState

-- A session pump: what its mutex guards, its channels as flags (closed or not), and its contexts. A
-- carrier or a target is a name of the runtime's own.
pub record Session : Type 0 where
  pub session_id : Bytes
  pub state : SessionState
  pub active_carrier : Option ℕ
  pub target : Option ℕ
  pub canceled : Bool
  pub carrier_canceled : Bool
  pub stopping : Bool
  pub work_count : ℕ
  pub work_closed : Bool
  pub stop_done : Bool
  pub completed_cleanly : Bool

pub data SessionError : Type 0 where
  invalid_session_id runtime_closed duplicate_session_id : SessionError

-- `sessionRegistry`: the pump that each id names.
pub record Registry : Type 0 where
  pub closed : Bool
  pub sessions : List (Bytes × ℕ)

unfoldable pub lookup_session : Bytes → List (Bytes × ℕ) → Option ℕ
lookup_session id [] = none
lookup_session id ((k, p) ∷ rest) =
    let found = lookup_session id rest in if same k id then some p else found

-- `get`.
unfoldable pub get_session : Registry → Bytes → Option ℕ
get_session r id = if r.closed then none else lookup_session id r.sessions

-- `register`.
unfoldable pub register_session : Registry → Bytes → ℕ → Result SessionError Registry
register_session r id p = do
  fail_if (is_empty id) invalid_session_id
  fail_if r.closed runtime_closed
  fail_if (elim (lookup_session id r.sessions) [ none ↦ false | some _ ↦ true ])
      duplicate_session_id
  ok (record r { sessions = (id, p) ∷ r.sessions })

unfoldable pub delete_session : Bytes → List (Bytes × ℕ) → List (Bytes × ℕ)
delete_session id [] = []
delete_session id ((k, p) ∷ rest) =
    let kept = delete_session id rest in if same k id then kept else (k, p) ∷ kept

-- `remove`: only the pump that the id still names.
unfoldable pub remove_session : Registry → Bytes → ℕ → Registry
remove_session r id p = elim (lookup_session id r.sessions) [
  | none ↦ r
  | some q ↦ if q == p then record r { sessions = delete_session id r.sessions } else r
]

-- `close`: the pumps that the caller has to stop.
unfoldable pub close_registry : Registry → Registry × List ℕ
close_registry r =
    if r.closed
    then (r, [])
    else (record r { closed = true; sessions = [] }, map (λ e. e.1) r.sessions)

-- `newSessionPump`, as far as the pump's own fields.
unfoldable pub new_session : Bytes → Option ℕ → Session
new_session id target = record {
  session_id = id;
  state = active;
  active_carrier = none;
  target = target;
  canceled = false;
  carrier_canceled = false;
  stopping = false;
  work_count = 0;
  work_closed = false;
  stop_done = false;
  completed_cleanly = false;
}

-- `SetActiveCarrier`.
unfoldable pub set_active_carrier : Option ℕ → Session → Session × Bool
set_active_carrier carrier s =
    if s.stopping || s.canceled then (s, false) else (record s { active_carrier = carrier }, true)

-- `acceptDispatch`.
unfoldable pub accept_dispatch : Session → Bool
accept_dispatch s = not s.stopping && not s.canceled

-- `admitWork`.
unfoldable pub admit_work : Session → Session × Bool
admit_work s =
    if s.stopping || s.canceled
    then (s, false)
    else (record s { work_count = s.work_count + 1 }, true)

-- `closeWorkDoneLocked`.
unfoldable pub close_work_done : Session → Session
close_work_done s =
    if s.stopping && s.work_count == 0 && not s.work_closed
    then record s { work_closed = true }
    else s

-- `finishWork`; `none` is its panic.
unfoldable pub finish_work : Session → Option Session
unfolding close_work_done
finish_work s =
    if s.work_count == 0
    then none
    else some (close_work_done (record s { work_count = s.work_count - 1 }))

-- `sessionStopResources`.
pub record StopResources : Type 0 where
  pub active_carrier : Option ℕ
  pub target : Option ℕ

-- `beginStop`: the resources go to the one caller that becomes the closer.
unfoldable pub begin_stop : Session → Session × Option StopResources
unfolding close_work_done
begin_stop s = if s.stopping then (s, none) else (
  close_work_done (record s { stopping = true; state = closed; active_carrier = none }),
  some (record { active_carrier = s.active_carrier; target = s.target }),
)

-- What `completeStop` does to the endpoints.
pub data Closing : Type 0 where
  close_carrier reset_carrier close_target : ℕ → Closing

abbrev pub carrier_closing : Bool → Option ℕ → List Closing
carrier_closing clean none = []
carrier_closing true (some c) = close_carrier c ∷ []
carrier_closing false (some c) = reset_carrier c ∷ []

abbrev pub target_closing : Option ℕ → List Closing
target_closing none = []
target_closing (some t) = close_target t ∷ []

-- The first half of `completeStop`, up to the wait for the work.
unfoldable pub release_resources : StopResources → Session → Session × List Closing
release_resources r s = (
  record s { canceled = true; carrier_canceled = true },
  carrier_closing s.completed_cleanly r.active_carrier ++ target_closing r.target,
)

-- The second half, behind `<-workDone`; the session's entry in the registry is removed with it. `none`
-- is the panic of a second `close(stopDone)`.
unfoldable pub finish_stop : Session → Option Session
finish_stop s = if s.stop_done then none else some (record s { stop_done = true })
