-- ===== src/UseCase/Run.antt =====
-- The Go functions of internal/usecase as runs on the tables: a run that fails keeps what it has written.
use tubo.Base.{◌≡◌, refl, ◌⊎◌, inl, inr, Bool, true, false, Bytes, [], ◌∷◌, Result, ok, err}
use tubo.Domain.Model.{UrlLibrary, ServiceSpec, PipeSpec}
use tubo.Store.Resources.{
  SpecLibrary, Resources, ResourceError, not_found, put_service, put_pipe, pipe,
}
use tubo.UseCase.{World, RemoteCall, UseError, persistence_failed}

pub data Outcome {ℓ} (A : Type ℓ) : Type ℓ where
  failed : UseError → World → Outcome A
  done : A → World → Outcome A

abbrev pub Run {ℓ} : Type ℓ → Type ℓ
Run A = World → Outcome A

abbrev pub continue {ℓ κ} : {A : Type ℓ} {B : Type κ} → Outcome A → (A → Run B) → Outcome B
continue (failed e w) next = failed e w
continue (done a w) next = next a w

infixl 5 ◌>>=◌ ◌>>◌
abbrev pub ◌>>=◌ {ℓ κ} : {A : Type ℓ} {B : Type κ} → Run A → (A → Run B) → Run B
first >>= next = λ w. continue (first w) next

abbrev pub ◌>>◌ {ℓ} : {B : Type ℓ} → Run (Unit {0}) → Run B → Run B
first >> next = λ w. continue (first w) (λ _. next)

abbrev pub give {ℓ} : {A : Type ℓ} → A → Run A
give a w = done a w

abbrev pub settle {ℓ} : {A : Type ℓ} → Result UseError A → World → Outcome A
settle (err e) w = failed e w
settle (ok a) w = done a w

-- What neither reads nor writes the tables.
abbrev pub lift {ℓ} : {A : Type ℓ} → Result UseError A → Run A
lift r w = settle r w

-- What reads the tables alone.
abbrev pub look {ℓ} : {A : Type ℓ} → (World → Result UseError A) → Run A
look f w = settle (f w) w

-- `if test { return err }`.
abbrev pub stop_if : Bool → UseError → Run (Unit {0})
stop_if true e w = failed e w
stop_if false e w = done tt w

-- A remote call that is made.
abbrev pub made : RemoteCall → Run (Unit {0})
made c w = done tt (record w { calls = c ∷ w.calls })

abbrev written : World → Result ResourceError (Bool × Resources) → Outcome Bool
written w (err e) = failed (persistence_failed e) w
written w (ok (created, resources)) = done created (record w { resources = resources })

-- `ServiceRepoAdapter.Upsert`.
abbrev pub upsert_service : SpecLibrary → UrlLibrary → ServiceSpec → Run Bool
upsert_service j l s w = written w (put_service j l s w.resources)

-- `PipeRepoAdapter.Upsert`.
abbrev pub upsert_pipe : SpecLibrary → PipeSpec → Bytes → Run Bool
upsert_pipe j p key w = written w (put_pipe j p key [] w.resources)

-- What a lookup of a pipe answers: the pipe with its key file, that there is none, or another error.
pub data Lookup : Type 0 where
  present : PipeSpec → Bytes → Lookup
  missing : Lookup
  broken : ResourceError → Lookup

abbrev pub looked_up : Result ResourceError (PipeSpec × Bytes × Bytes) → Lookup
looked_up (ok (spec, key, grant)) = present spec key
looked_up (err not_found) = missing
looked_up (err e) = broken e

-- `PipeRepoAdapter.Get`, with the test for `domain.ErrNotFound`.
abbrev pub get_pipe : SpecLibrary → Bytes → Run Lookup
get_pipe j identifier w = done (looked_up (pipe j identifier w.resources)) w

pub Lookup-cases :
    (o : Lookup)
    → ((spec : PipeSpec) × (key : Bytes) × (o ≡ present spec key))
      ⊎ (o ≡ missing)
      ⊎ ((e : ResourceError) × (o ≡ broken e))
Lookup-cases (present spec key) = inl (spec, key, refl)
Lookup-cases missing = inr (inl refl)
Lookup-cases (broken e) = inr (inr (e, refl))

pub Outcome-cases {ℓ} :
    {A : Type ℓ} (o : Outcome A)
    → ((a : A) × (w : World) × (o ≡ done a w)) ⊎ ((e : UseError) × (w : World) × (o ≡ failed e w))
Outcome-cases (done a w) = inl (a, w, refl)
Outcome-cases (failed e w) = inr (e, w, refl)
