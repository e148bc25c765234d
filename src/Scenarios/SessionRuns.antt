-- ===== src/Scenarios/SessionRuns.antt =====
-- The theorems on sessions at one session that stops while it works.
use tubo.Base.{ℕ, ◌≡◌, refl, true, Option, none, some, [], ◌∷◌, arith, Bytes, lit}
use tubo.Session.Lifecycle.{
  admits, releases, begins, finishes, here, next, Reach, Reach-IsSound, holding, started, waiting,
  waiting_ends, IsSound, Running,
}
use tubo.Session.{
  close_target, closed, new_session, Session, StopResources, admit_work, begin_stop, finish_stop,
  finish_work, release_resources,
}

abbrev id : Bytes
id = lit "ses_1"

abbrev target : Option ℕ
target = some 4

abbrev res : StopResources
res = record { active_carrier = none; target = target }

abbrev working : Running
working = record (started id target) {
  session = record (new_session id target) { work_count = 1 };
  workers = 1;
}

abbrev stopping_session : Session
stopping_session = record (new_session id target) {
  work_count = 1;
  stopping = true;
  state = closed;
}

abbrev stopping : Running
stopping = record { session = stopping_session; closer = holding res; workers = 1; closings = [] }

abbrev drained_session : Session
drained_session = record stopping_session { work_count = 0; work_closed = true }

abbrev drained : Running
drained = record { session = drained_session; closer = holding res; workers = 0; closings = [] }

abbrev released : Running
released = record {
  session = record drained_session { canceled = true; carrier_canceled = true };
  closer = waiting;
  workers = 0;
  closings = close_target 4 ∷ [];
}

working_reached : Reach (started id target) working
unfolding admit_work new_session
working_reached = next here (admits (record (new_session id target) { work_count = 1 }) refl)

stopping_reached : Reach (started id target) stopping
unfolding begin_stop new_session
stopping_reached = next working_reached (begins stopping_session res refl)

released_reached : Reach (started id target) released
unfolding release_resources finish_work new_session
released_reached =
    next (next stopping_reached (finishes drained_session (omega arith) refl)) (releases res refl)

Reach-IsSound_example : IsSound released
Reach-IsSound_example = Reach-IsSound id target released_reached

waiting_ends_example :
    (released.session.work_closed ≡ true)
    × (finish_stop released.session ≡ some (record released.session { stop_done = true }))
waiting_ends_example = waiting_ends id target released_reached refl refl
