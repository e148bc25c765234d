-- ===== src/Domain/Ref.antt =====
-- internal/domain/ref.go: resource references `<kind>/<name>`.
use tubo.Base.{
  ℕ, Bool, false, ◌&&◌, ◌||◌, not, List, [], ◌∷◌, ◌++◌, Option, none, some, Bytes, lit, same,
  is_empty, trim_space, length, all, any, leb, ◌==◌, if◌then◌else◌, Result, ok, ◌>>=◌, ◌>>◌,
  fail_if, or_fail,
}

pub data RefError : Type 0 where
  malformed unsupported_kind invalid_name wrong_kind : RefError

abbrev pub kind_service : Bytes
kind_service = lit "service"

abbrev pub kind_pipe : Bytes
kind_pipe = lit "pipe"

-- The kinds that `Ref.Validate` accepts, in the order of the constants.
abbrev pub kinds : List Bytes
kinds =
    kind_service
    ∷ kind_pipe
    ∷ lit "run"
    ∷ lit "session"
    ∷ lit "relay"
    ∷ lit "authority"
    ∷ lit "gateway"
    ∷ []

-- [a-z0-9]
abbrev pub is_alnum : ℕ → Bool
is_alnum c = (leb b'a' c && leb c b'z') || (leb b'0' c && leb c b'9')

-- [a-z0-9@._-]
abbrev pub is_name_char : ℕ → Bool
is_name_char c = is_alnum c || c == b'@' || c == b'.' || c == b'_' || c == b'-'

-- ^[a-z0-9][a-z0-9@._-]{0,62}$
unfoldable pub name_matches : Bytes → Bool
name_matches [] = false
name_matches (c ∷ s) = is_alnum c && all is_name_char s && leb (length s) 62

pub record Ref : Type 0 where
  pub kind : Bytes
  pub name : Bytes

-- `Ref.Validate`.
unfoldable pub validate_ref : Ref → Result RefError (Unit {0})
validate_ref r = do
  fail_if (not (any (same r.kind) kinds)) unsupported_kind
  fail_if (not (name_matches r.name)) invalid_name

-- `Ref.RequireKind`.
unfoldable pub require_kind : Ref → Bytes → Result RefError (Unit {0})
require_kind r kind = do validate_ref r; fail_if (not (same r.kind kind)) wrong_kind

unfoldable pub new_ref : Bytes → Bytes → Result RefError Ref
new_ref kind name = do
  let ref : Ref = record { kind = kind; name = trim_space name }
  validate_ref ref
  ok ref

-- `strings.Cut(s, "/")`: the text before and after the first slash.
unfoldable pub cut_slash : Bytes → Option (Bytes × Bytes)
cut_slash [] = none
cut_slash (c ∷ s) =
    let rest = cut_slash s in
    if c == b'/'
    then some ([], s)
    else elim rest [ none ↦ none | some (before, after) ↦ some (c ∷ before, after) ]

unfoldable pub parse_ref : Bytes → Result RefError Ref
parse_ref raw = do
  (kind, name) ← or_fail (cut_slash (trim_space raw)) malformed
  fail_if (any (λ c. c == b'/') name) malformed
  new_ref kind name

-- `Ref.String`.
unfoldable pub to_string : Ref → Bytes
to_string r = if is_empty r.kind && is_empty r.name then [] else r.kind ++ (b'/' ∷ r.name)
