-- ===== src/UseCase/Attach/Durable.antt =====
-- What internal/usecase/attach.go leaves in the tables.
use tubo.Base.{
  ◌≡◌, refl, sym, subst, ap, ◌∙◌, Bool, none, some, [], ◌∷◌, arith, Bytes, lit, ok, find_row,
  Result-cases, Bool-cases, is_blank, ◌||◌, map_err, ◌⊎◌, inl, inr,
}
use tubo.Domain.Ref.{Ref, to_string, new_ref, kind_pipe}
use tubo.Domain.Model.{UrlLibrary, ServiceSpec, PipeSpec}
use tubo.Credential.{Library}
use tubo.Store.Resources.{
  SpecLibrary, Resources, service_key, service_row, find_service, pipe, put_service, put_pipe,
}
use tubo.Store.Resources.Written.{
  ServiceWritten, PipeWritten, put_service-ServiceWritten, put_service-rows, put_pipe-PipeWritten,
}
use tubo.UseCase.{World, UseCases, Readings, UseError, invalid_name, owner_key}
use tubo.UseCase.Target.{service_spec_from_target}
use tubo.UseCase.Run.{done, failed, Lookup-cases, looked_up}
use tubo.UseCase.Attach.{
  AttachInput, AttachResult, attached_ingress, attached_pipe, keep_identity, define_pipe,
  define_or_preserve, attach_pipe, attach,
}

-- The pipe leads to the service, is not listed, and opens by invitation.
pub record IsAttached (service : ServiceSpec) (pipe : PipeSpec) (result : AttachResult)
    : Type 0 where
  pub leads : pipe.target ≡ service.ref
  pub names_service : result.service_ref ≡ service.ref
  pub names_pipe : result.pipe_ref ≡ pipe.ref
  pub identified : result.pipe_id ≡ pipe.pipe_id
  pub unlisted : pipe.visibility ≡ lit "unlisted"
  pub invite_only : pipe.access ≡ lit "invite_only"
  pub published : pipe.ingress ≡ attached_ingress

module _ (g : Library) (j : SpecLibrary) (l : UrlLibrary) (u : UseCases) (r : Readings) where
  -- The last two steps, at the definition that is to be stored.
  define-done :
      (service : ServiceSpec) (created : Bool) (pipe : PipeSpec) (key : Bytes)
      (result : AttachResult) (w w' : World)
      → define_pipe j service.ref created pipe key w ≡ done result w'
      → (pipe_created : Bool) × (db : Resources) × (put_pipe j pipe key [] w.resources
          ≡ ok (pipe_created, db))
        × (w' ≡ record w { resources = db })
        × (result ≡ record {
          service_ref = service.ref;
          pipe_ref = pipe.ref;
          pipe_id = pipe.pipe_id;
          created = created;
          pipe_created = pipe_created;
        })
  unfolding define_pipe
  define-done service created pipe key result w w' h =
      elim (Result-cases (put_pipe j pipe key [] w.resources)) [
        | inl ((pipe_created, db), stored) ↦ (pipe_created, db, stored, ground arith, ground arith)
        | inr (e, refused) ↦ absurd (ground arith)
      ]

  abbrev Defined : ServiceSpec → AttachResult → World → World → Type 0
  Defined service result w w' =
      (pipe : PipeSpec) × (db : Resources) × (key : Bytes) × (pipe_created : Bool) × IsAttached
        service pipe result
      × (put_pipe j pipe key [] w.resources ≡ ok (pipe_created, db))
      × (w' ≡ record w { resources = db })

  define-Defined :
      (service : ServiceSpec) (created : Bool) (pipe : PipeSpec) (key : Bytes)
      (result : AttachResult) (w w' : World)
      → pipe.target ≡ service.ref
      → pipe.visibility ≡ lit "unlisted"
      → pipe.access ≡ lit "invite_only"
      → pipe.ingress ≡ attached_ingress
      → define_pipe j service.ref created pipe key w ≡ done result w'
      → Defined service result w w'
  define-Defined service created pipe key result w w' leads unlisted invite_only published h =
      let (pipe_created, db, put, after, is) = define-done service created pipe key result w w' h in
      (
        pipe,
        db,
        key,
        pipe_created,
        record {
          leads = leads;
          names_service = ap (λ (x : AttachResult). x.service_ref) is;
          names_pipe = ap (λ (x : AttachResult). x.pipe_ref) is;
          identified = ap (λ (x : AttachResult). x.pipe_id) is;
          unlisted = unlisted;
          invite_only = invite_only;
          published = published;
        },
        put,
        after,
      )

  attach_pipe-done :
      (service : ServiceSpec) (created : Bool) (pipe_ref : Ref) (result : AttachResult)
      (w w' : World)
      → attach_pipe g j u r service.ref created pipe_ref w ≡ done result w'
      → Defined service result w w'
  unfolding attach_pipe attached_pipe define_or_preserve
  attach_pipe-done service created pipe_ref result w w' h =
      elim (Result-cases (owner_key u pipe_ref)) [
        | inr (e, refused) ↦ absurd (ground arith)
        | inl ((owner, key_file), own) ↦
            let spec = attached_pipe g pipe_ref owner service.ref r in
            elim (Lookup-cases (looked_up (pipe j (to_string pipe_ref) w.resources))) [
              | inl (old, old_key, there) ↦
                  define-Defined service created (keep_identity spec old) old_key result w w' refl
                    refl refl refl (ground arith)
              | inr (inl absent) ↦
                  define-Defined service created spec key_file result w w' refl refl refl refl
                    (ground arith)
              | inr (inr (e, lost)) ↦ absurd (ground arith)
            ]
      ]

  abbrev pub Attached : AttachInput → AttachResult → World → World → Type 0
  Attached input result w w' =
      (service : ServiceSpec) × (pipe : PipeSpec) × (service_spec_from_target l input.name
          input.target
        ≡ ok service)
      × IsAttached service pipe result
      × ServiceWritten j service w'.resources
      × PipeWritten j pipe w'.resources
      × (w'.connections ≡ w.connections)
      × (w'.calls ≡ w.calls)

  Attached-of_parts :
      (input : AttachInput) (result : AttachResult) (service : ServiceSpec) (created : Bool)
      (db : Resources) (w w' : World)
      → service_spec_from_target l input.name input.target ≡ ok service
      → put_service j l service w.resources ≡ ok (created, db)
      → Defined service result (record w { resources = db }) w'
      → Attached input result w w'
  Attached-of_parts input result service created db w w' named stored defined =
      let (pipe, db', key, pipe_created, is, put, after) = defined in
      let ((row, found, text), _) =
        put_service-ServiceWritten j l service created w.resources db stored in
      let (pipe_written, same_services) = put_pipe-PipeWritten j pipe key pipe_created db db' put in
      subst (Attached input result w) (sym after) (
        service,
        pipe,
        named,
        is,
        (row, ap (find_row service_key (to_string service.ref ∷ [])) same_services ∙ found, text),
        pipe_written,
        refl,
        refl,
      )

  -- An attachment that succeeds has stored the service of the target, and under the pipe's reference a
  -- pipe that leads to it, is published but not listed, and opens by invitation; it has made no
  -- remote call.
  pub attach-Attached :
      (input : AttachInput) (result : AttachResult) (w w' : World)
      → attach g j l u r input w ≡ done result w'
      → Attached input result w w'
  unfolding attach
  attach-Attached input result w w' h =
      elim (Result-cases (service_spec_from_target l input.name input.target)) [
        | inr (e, refused) ↦ absurd (ground arith)
        | inl (service, named) ↦ elim (Result-cases (put_service j l service w.resources)) [
          | inr (e, refused) ↦ absurd (ground arith)
          | inl ((created, db), stored) ↦
              elim (Result-cases (map_err invalid_name (new_ref kind_pipe input.name))) [
                | inr (e, refused) ↦ absurd (ground arith)
                | inl (pipe_ref, fits) ↦
                    Attached-of_parts input result service created db w w' named stored (
                      attach_pipe-done service created pipe_ref result (record w { resources = db })
                        w' (ground arith))
              ]
        ]
      ]

  attach_pipe-failed :
      (service_ref : Ref) (created : Bool) (pipe_ref : Ref) (e : UseError) (w w' : World)
      → attach_pipe g j u r service_ref created pipe_ref w ≡ failed e w'
      → w' ≡ w
  unfolding attach_pipe attached_pipe define_or_preserve define_pipe
  attach_pipe-failed service_ref created pipe_ref e w w' h = ground arith

  -- The world is as it was, or but for one row of the services table: that of the target's service.
  abbrev pub AtMostService : AttachInput → World → World → Type 0
  AtMostService input w w' =
      (w' ≡ w)
      ⊎ ((service : ServiceSpec) × (spec_text : Bytes) × (service_spec_from_target l input.name
              input.target
            ≡ ok service)
          × (j.marshal_service service ≡ some spec_text)
          × (find_service (to_string service.ref) w.resources ≡ none)
          × (w' ≡ record w {
            resources = record w.resources {
              services = service_row spec_text service ∷ w.resources.services;
            };
          }))

  -- An attachment that fails leaves the whole world as it was (every table and the calls made), or else
  -- with one more row in the services table and no other change: the row of its target's service, under a
  -- reference that had none.
  pub attach-failed :
      (input : AttachInput) (e : UseError) (w w' : World)
      → attach g j l u r input w ≡ failed e w'
      → AtMostService input w w'
  unfolding attach
  attach-failed input e w w' h = elim (Bool-cases (is_blank input.name || is_blank input.target)) [
    | inl blank ↦ ground arith
    | inr given ↦ elim (Result-cases (service_spec_from_target l input.name input.target)) [
      | inr (_, refused) ↦ ground arith
      | inl (service, named) ↦ elim (Result-cases (put_service j l service w.resources)) [
        | inr (_, refused) ↦ ground arith
        | inl ((created, db), stored) ↦
            let after : w' ≡ record w { resources = db } =
              elim (Result-cases (map_err invalid_name (new_ref kind_pipe input.name))) [
                | inr (_, refused) ↦ ground arith
                | inl (pipe_ref, fits) ↦
                    attach_pipe-failed service.ref created pipe_ref e (record w { resources = db })
                      w' (ground arith)
              ] in
            elim (put_service-rows j l service created w.resources db stored) [
              | inl same_tables ↦ inl (after ∙ ap (λ x. record w { resources = x }) same_tables)
              | inr (spec_text, coded, new, rows) ↦ inr (
                service,
                spec_text,
                named,
                coded,
                new,
                after ∙ ap (λ x. record w { resources = x }) rows,
              )
            ]
      ]
    ]
  ]
