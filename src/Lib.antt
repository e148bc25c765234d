-- ===== src/Lib.antt =====
-- Tubo connects a client to a service through named pipes. This library models the parts that
-- decide who may pass and how far: what a pipe is and where it leads, the credentials that open it,
-- the authority that issues them, the tables that revoke them, and the session that carries the
-- bytes.
--
-- The parts, and the code they follow:
--
-- Domain (internal/domain): Domain/Ref is ref.go, Domain/Model is model.go, Domain/Graph is
-- graph.go. Domain/Graph/Walks describes paths as a relation, apart from the loop.
--
-- Engine (internal/engine/engine.go): the traversal state that travels with a chain of pipes
-- (NewTraversal, Advance, FromWire), and Forward, one hop of it. Engine/Traversal and Engine/Hop
-- hold what they promise.
--
-- Protocol (internal/protocol/frame.go): WriteFrame and ReadFrame on a stream of bytes, for any
-- type that encoding/json codes. A writer that fails in between is left out.
--
-- Credential (internal/accesslease): Credential has the records and constants, and the parts of
-- Go's library; Credential/Encoding is sign.go, Credential/Strict is strict.go, Credential/Lease is
-- accesslease.go, Credential/Binding is owner.go, Credential/Invite is invite.go. What a verified
-- binding, invite or lease is stands in the Verify file of each.
--
-- Store/Exact (internal/store/store.go): Revoke, RevocationEpoch, IsRevoked, RedeemInvite,
-- RedeemInviteAndAccept, AcceptedRelationship, ResolveRevokeInvite, Revocations and the lookups of
-- redemptions over three tables. Store/Exact/Tables has histories: sequences of committed
-- transactions of any processes.
--
-- Store/Resources (internal/store/store.go): services, pipes and the sessions of a pipe;
-- Store/Resources/Paths also has the resolvers of newPipeEngine
-- (internal/runtime/engine_adapter.go). Store/Connections is exact_connection.go: accepted remote
-- pipes and the cache of their leases. Store/Runs has the processes that run, their supervisors and
-- their traffic.
--
-- Store/Cache (internal/store/store.go): the tables records, authority_snapshots, scope_freshness
-- and scope_sync_leases. Store/Leases has the leases that fence the refresh of a scope,
-- Store/Records the records that are announced and the snapshots of them that an authority serves,
-- Store/Discovery the snapshot that replaces what was discovered, and the queries. Store/Stamp is
-- the order of times as the texts that SQL compares, which is theirs up to the second; it is taken
-- up to the year 9999.
--
-- Scoped (internal/authority/token.go, internal/discovery/record.go,
-- internal/runtime/authority.go): Scoped/Tokens and Scoped/Records are the signed tokens and
-- records of a scope. Scoped/Server has what the operations of the scope's authority share,
-- Scoped/Operations the operations, Scoped/Process the two entries process and processSnapshot.
-- They run on the tables of Store/Exact and Store/Cache, as the code does through its store. A
-- token of internal/authority is not a credential of internal/accesslease.
--
-- Exact (internal/exactauthority, internal/openauth, internal/runtime/exact_authorizer.go):
-- Exact/Redeem is redeem.go, Exact/Renew is renew.go, Exact/Authorize is the authorizer of opens.
-- Each takes a state of Store/Exact and uses the functions of Credential, as the code does through
-- its store adapter. Exact/Bound says what the bindings and keys that they accept are.
--
-- UseCase (internal/usecase): UseCase/Attach is attach.go, with UseCase/Target for its service;
-- UseCase/Share is share.go; UseCase/Accept and UseCase/Acquire are accept.go; UseCase/Connect is
-- connect.go, with the part that neither writes nor calls in UseCase/Checks. UseCase/Accept/Opened
-- and UseCase/Connect/Ready say what the checks establish. UseCase/Run is the monad of their runs,
-- over the tables of Store/Resources and Store/Connections, as internal/store/usecaseports.go joins
-- them.
--
-- Session (internal/runtime/session.go): the registry of session pumps and the lifecycle of one
-- pump. Session/Pump has the loops that copy one direction, at what a reader answers and a writer
-- takes.
--
-- Base has what the parts share; Scenarios runs them at concrete values.
--
-- How the code is represented:
--
-- Strings are lists of bytes; strings.TrimSpace is taken on ASCII white space. A time is a number
-- of nanoseconds since the zero time.Time, so 0 is the zero time; a duration is a natural number, 0
-- for any that is not positive. The 64-bit epochs are natural numbers without a bound: no operation
-- adds to one. An error is a value of the model's own, one for each message where the code tells
-- them apart. The clock and the random bytes are arguments, and random bytes may be absent where
-- rand.Read fails.
--
-- The parts of Go's library that the code rests on (ed25519, sha256, base32, base64, encoding/json,
-- net/url) are parameters: Library and UrlLibrary. The theorems that need a law of them take
-- IsLibrary, which states what Go documents; Scenarios/Toy has a library that keeps these laws.
--
-- A transaction is one function on the tables; an error leaves them as they were. Where the
-- database does not answer, every statement fails. The second query of Revoke, of the largest epoch
-- of a pipe subject, reads the row that its first query has read, and is not written twice. LIMIT 1
-- takes the first row in the order of the table.
--
-- The loop of ResolveLogicalPath runs on fuel, which is the loop's own bound maxHops less the
-- rounds made; to run out of it is the code's own error of too many hops. The loop of writes in
-- Session/Pump runs on a round for each byte, which is enough for a writer that takes some byte
-- where it reports no error. All other recursion is structural.
--
-- Channels and contexts of a session are flags, and its goroutines are interleaved by a step
-- relation with one constructor for each critical section.
--
-- Statements on the tables of Store/Cache fail all together or not at all, where the database
-- answers or does not; a lease token that another scope's row has is such a failure. The queries
-- Records, Record and RecordInScope read the clock twice, to prune and to select, and keep what
-- they pruned where they fail. A counter is a natural number: an authority refuses to count beyond
-- what an INTEGER column holds, and a snapshot brings a 64-bit number. The authority reads the
-- clock at each check, and each reading is an argument of its own, in no order that is assumed.
-- ScopedLibrary adds encoding/json at the types of Scoped to Library.
--
-- A use case runs on the tables and on a log of the remote calls that it makes; a run that fails
-- keeps what it has written. Key files, the clock and the injected capabilities are what they
-- answer in the course of one call. A row that is inserted stands first in its table; a query for a
-- reference or an identifier asks the index of references first. SpecLibrary is encoding/json at
-- the specifications. A target's scheme is lowered on ASCII letters.
--
-- What is not modelled: the command line (internal/cli, cmd), libp2p (internal/node), reachability,
-- local key files, StartPipe, the messages of the handshakes in internal/protocol, the store's
-- tables of scopes, memberships, connect leases, path events and aliases, its configuration and
-- migrations, the handshakes of internal/runtime, the streams and signals around the scope's
-- authority, and what starts the pumps of a session. They are input and output, or orchestration of
-- the parts above, or still to be added.
pub mod Base
pub mod Domain
pub mod Engine
pub mod Protocol
pub mod Credential
pub mod Store
pub mod Exact
pub mod Scoped
pub mod Session
pub mod UseCase
pub mod Scenarios
