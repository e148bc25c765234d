-- ===== src/UseCase/Target.antt =====
-- internal/usecase/attach.go: the service that a target names.
use tubo.Base.{
  [], ◌∷◌, Bytes, lit, same, map, ◌==◌, if◌then◌else◌, Result, ok, map_err, ◌>>=◌, ◌>>◌,
}
use tubo.Domain.Ref.{new_ref, kind_service}
use tubo.Domain.Model.{UrlLibrary, ServiceSpec, validate_service}
use tubo.Credential.Encoding.{lower_char}
use tubo.UseCase.{UseError, invalid_name, invalid_service}

-- `strings.SplitN(target, ":", 2)[0]`.
unfoldable pub before_colon : Bytes → Bytes
before_colon [] = []
before_colon (c ∷ s) = let rest = before_colon s in if c == b':' then [] else c ∷ rest

-- The kind of the target's scheme, on ASCII text.
unfoldable pub kind_of_target : Bytes → Bytes
kind_of_target target =
    let scheme = map lower_char (before_colon target) in
    if same scheme (lit "https") then lit "http" else scheme

-- `serviceSpecFromTarget`.
unfoldable pub service_spec_from_target : UrlLibrary → Bytes → Bytes → Result UseError ServiceSpec
service_spec_from_target l name target = do
  ref ← map_err invalid_name (new_ref kind_service name)
  let spec : ServiceSpec = record {
    ref = ref;
    kind = kind_of_target target;
    target = target;
    description = [];
    metadata = [];
  }
  map_err invalid_service (validate_service l spec)
  ok spec
