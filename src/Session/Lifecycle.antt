-- ===== src/Session/Lifecycle.antt =====
-- The lifecycle of a session as steps of its users and its closer (internal/runtime/session.go).
use tubo.Base.{
  ℕ, ◌+◌, ◌-◌, ◌≤◌, ◌<◌, ◌≡◌, refl, ◌∙◌, Bool, true, false, not, ◌&&◌, Option, some, List, [],
  arith, Bytes, ◌==◌,
}
use tubo.Session.{
  Session, StopResources, Closing, new_session, set_active_carrier, admit_work, finish_work,
  close_work_done, begin_stop, release_resources, finish_stop,
}

-- Where the one closer stands.
pub data Closer : Type 0 where
  idle : Closer
  holding : StopResources → Closer
  waiting : Closer
  gone : Closer

-- A session, its closer, the pieces of admitted work that run, and what was done to its endpoints.
pub record Running : Type 0 where
  pub session : Session
  pub closer : Closer
  pub workers : ℕ
  pub closings : List Closing

pub data Step : Running → Running → Type 0 where
  carries :
      {r : Running} (carrier : Option ℕ)
      → Step r (record r { session = (set_active_carrier carrier r.session).0 })
  admits :
      {r : Running} (s : Session)
      → admit_work r.session ≡ (s, true)
      → Step r (record r { session = s; workers = r.workers + 1 })
  finishes :
      {r : Running} (s : Session)
      → 0 < r.workers
      → finish_work r.session ≡ some s
      → Step r (record r { session = s; workers = r.workers - 1 })
  completes :
      {r : Running} (clean : Bool)
      → Step r (record r { session = record r.session { completed_cleanly = clean } })
  cancels : {r : Running} → Step r (record r { session = record r.session { canceled = true } })
  begins :
      {r : Running} (s : Session) (res : StopResources)
      → begin_stop r.session ≡ (s, some res)
      → Step r (record r { session = s; closer = holding res })
  releases :
      {r : Running} (res : StopResources)
      → r.closer ≡ holding res
      → Step r (record r {
        session = (release_resources res r.session).0;
        closer = waiting;
        closings = (release_resources res r.session).1;
      })
  ends :
      {r : Running} (s : Session)
      → r.closer ≡ waiting
      → r.session.work_closed ≡ true
      → finish_stop r.session ≡ some s
      → Step r (record r { session = s; closer = gone })

pub data Reach (r : Running) : Running → Type 0 where
  here : Reach r r
  next : {a b : Running} → Reach r a → Step a b → Reach r b

abbrev pub started : Bytes → Option ℕ → Running
started id target = record {
  session = new_session id target;
  closer = idle;
  workers = 0;
  closings = [];
}

abbrev pub is_idle : Closer → Bool
is_idle idle = true
is_idle _ = false

abbrev pub is_gone : Closer → Bool
is_gone gone = true
is_gone _ = false

-- What holds of a session between two steps.
pub record IsSound (r : Running) : Type 0 where
  pub counted : r.session.work_count ≡ r.workers
  pub fenced : r.session.stopping ≡ not (is_idle r.closer)
  pub drained : r.session.work_closed ≡ (r.session.stopping && r.workers == 0)
  pub ended : r.session.stop_done ≡ is_gone r.closer
  pub ended_drained : is_gone r.closer ≡ true → r.workers ≡ 0

Step-IsSound : {a b : Running} → Step a b → IsSound a → IsSound b
unfolding set_active_carrier admit_work finish_work begin_stop release_resources finish_stop
Step-IsSound (carries carrier) v = ground arith
Step-IsSound (admits s h) v = ground arith
Step-IsSound (finishes s pos h) v = ground arith
Step-IsSound (completes clean) v = ground arith
Step-IsSound cancels v = ground arith
Step-IsSound (begins s res h) v = ground arith
Step-IsSound (releases res h) v = ground arith
Step-IsSound (ends s w d h) v = ground arith

started-IsSound : (id : Bytes) (target : Option ℕ) → IsSound (started id target)
unfolding new_session
started-IsSound id target = ground arith

-- In every state that a session reaches, the work count is the number of workers, admission is fenced
-- exactly when a closer has been chosen, the work channel is closed exactly when stopping has begun
-- and no worker is left, and the stop channel exactly when the closer is through.
pub Reach-IsSound :
    (id : Bytes) (target : Option ℕ) {r : Running} → Reach (started id target) r → IsSound r
Reach-IsSound id target here = started-IsSound id target
Reach-IsSound id target (next h s) = Step-IsSound s (Reach-IsSound id target h)

-- A worker that finishes never meets the panic of an underflow.
pub finish_work_total :
    (id : Bytes) (target : Option ℕ) {r : Running}
    → Reach (started id target) r
    → 0 < r.workers
    → (s : Session) × (finish_work r.session ≡ some s)
unfolding finish_work
finish_work_total id target {r} h pos = (
  close_work_done (record r.session { work_count = r.session.work_count - 1 }),
  ground (arith, Reach-IsSound id target h),
)

stopping-Step :
    {a b : Running}
    → Step a b
    → a.session.stopping ≡ true
    → (b.session.stopping ≡ true)
      × (b.session.active_carrier ≡ a.session.active_carrier)
      × (b.workers ≤ a.workers)
unfolding set_active_carrier admit_work finish_work begin_stop release_resources finish_stop
stopping-Step (carries carrier) v = ground arith
stopping-Step (admits s h) v = ground arith
stopping-Step (finishes s pos h) v = ground arith
stopping-Step (completes clean) v = ground arith
stopping-Step cancels v = ground arith
stopping-Step (begins s res h) v = ground arith
stopping-Step (releases res h) v = ground arith
stopping-Step (ends s w d h) v = ground arith

-- Once stopping has begun it is never taken back, the carrier stays as it is, and over any further
-- history the workers only become fewer.
pub stopping_stays :
    {a b : Running}
    → Reach a b
    → a.session.stopping ≡ true
    → (b.session.stopping ≡ true)
      × (b.session.active_carrier ≡ a.session.active_carrier)
      × (b.workers ≤ a.workers)
stopping_stays here v = (v, refl, omega arith)
stopping_stays (next h s) v =
    let (still, carrier, fewer) = stopping_stays h v in
    let (still', carrier', fewer') = stopping-Step s still in
    (still', carrier' ∙ carrier, omega arith)

-- In every reachable state with a waiting closer, the closer can end as soon as the workers are
-- through, and it closes the stop channel for the first time.
pub waiting_ends :
    (id : Bytes) (target : Option ℕ) {r : Running}
    → Reach (started id target) r
    → r.closer ≡ waiting
    → r.workers ≡ 0
    → (r.session.work_closed ≡ true)
      × (finish_stop r.session ≡ some (record r.session { stop_done = true }))
unfolding finish_stop
waiting_ends id target h w none_left = ground (arith, Reach-IsSound id target h)
