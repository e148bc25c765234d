-- ===== src/Session/Entries.antt =====
-- The registry of sessions in internal/runtime/session.go.
use tubo.Base.{
  ℕ, ◌≡◌, ◌≢◌, ◌&&◌, none, some, List, [], ◌∷◌, arith, Bytes, same, same_iff, ◌==◌, if◌then◌else◌,
  ok,
}
use tubo.Session.{
  Registry, lookup_session, get_session, register_session, remove_session, delete_session,
  close_registry,
}

lookup-delete :
    (id j : Bytes) (es : List (Bytes × ℕ))
    → lookup_session j (delete_session id es) ≡ (if same id j then none else lookup_session j es)
unfolding lookup_session delete_session
lookup-delete id j [] = ground arith
lookup-delete id j ((k, p) ∷ es) =
    ground (arith, lookup-delete id j es, same_iff k id, same_iff k j, same_iff id j)

-- A registration that succeeds is of a new, non-empty id in an open registry; the id then names this
-- pump, and every other id what it named.
pub get_session-register :
    (r r' : Registry) (id j : Bytes) (p : ℕ)
    → register_session r id p ≡ ok r'
    → (id ≢ [])
      × (get_session r id ≡ none)
      × (get_session r' j ≡ (if same id j then some p else get_session r j))
unfolding register_session get_session lookup_session
get_session-register r r' id j p h = ground arith

-- A removal of an id that names a pump takes it away only if that is the given pump, and leaves every
-- other id.
get_session-remove :
    (r : Registry) (id j : Bytes) (p q : ℕ)
    → get_session r id ≡ some q
    → get_session (remove_session r id p) j
      ≡ (if same id j && p == q then none else get_session r j)
unfolding remove_session get_session
get_session-remove r id j p q h = ground (arith, lookup-delete id j r.sessions, same_iff id j)

-- A closed registry names no pump and takes none in, and its pumps are handed out once.
pub close_registry_lem :
    (r : Registry) (id : Bytes) (p : ℕ) (r' : Registry)
    → let closed = (close_registry r).0 in
      (get_session closed id ≡ none)
      × (register_session closed id p ≢ ok r')
      × (close_registry closed ≡ (closed, []))
unfolding close_registry get_session register_session
close_registry_lem r id p r' = ground arith
