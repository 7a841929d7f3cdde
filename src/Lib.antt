-- ===== src/Lib.antt =====
-- A verification library for the TelHawk stack, a security event platform of Go services.
--
-- The program. `ingest` takes events over Splunk's HEC protocol, queues them, normalizes them to
-- OCSF and forwards them to OpenSearch; `search` takes queries in a canonical JSON form, checks them
-- and translates them to OpenSearch's query language; `authenticate` keeps users, roles, scopes and
-- tokens, and decides what a user may do; `respond` keeps detection rules, alerts and cases; `common`
-- holds what they share, the table of queryable fields among it. The services call one another over
-- HTTP and NATS, which is not modelled.
--
-- The modules.
--   * Prelude: numbers, lists, texts (package strings), maps, what SQL does to rows (Select),
--     errors as values (Result) and calls that may panic (Outcome).
--   * Rbac: authenticate/internal/models/rbac.go and user.go. Rbac.Role has organizations,
--     clients, roles, permissions and assignments; Rbac.User has a user and the decisions
--     (`User.Can` is `can`, `User.CanActInScope` is `can_act_in_scope`, and so on).
--     Rbac.User.Scope, Power and Permissions prove the decisions against independent descriptions.
--   * Fields: common/fields/fields.go, the table `ValidFields` and its tests.
--   * Query: search/pkg/model/query.go (Query.Model), search/internal/validator/query.go
--     (Query.Validator) and search/internal/translator/opensearch.go (Query.Translator).
--     Query.Safe, Query.Meaning and Query.Checked prove that accepted queries are translated, what
--     a translated filter means, and what is known of an accepted query.
--   * Ingest: Ingest.Ack is ingest/internal/ack/manager.go (`Manager.Create` is `create`, and so
--     on) with the two metrics that it moves; Ingest.Event, SourceType and Service are the types
--     of ingest/internal/models/event.go and ingest/internal/service/ingest_service.go. A state is
--     an `IngestService`; Ingest.Service.Steps is the relation of its steps: IngestEvent or
--     IngestRaw up to the lock of Create (`begin`), the later parts of such a call (`advance`: the
--     gauge, the select, Fail, updateStats), the two halves of a round of processEvents
--     (`receive`, `finish`), a cleanup. Steps come in any order, with any number of calls in
--     progress. `ingest_event` and `ingest_raw` are calls that nothing comes between;
--     Ingest.Service.Runs proves them runs of steps. Ingest.Service.Queue, Begun, Advanced and
--     Sound prove the invariant, Settled and Context what follows. Ingest.Pipeline is
--     ingest/internal/pipeline with its registry, chain and basic validator, and
--     Ingest.Pipeline.Accepted what is known of its results.
--   * Auth: the sessions of authenticate/internal/models/user.go (Auth.Session), the users and
--     sessions of authenticate/internal/repository/memory.go (Auth.Repository), and Login,
--     RefreshToken, ValidateToken and RevokeToken of authenticate/internal/service/auth_service.go
--     (Auth.Service), over authenticate/pkg/tokens/jwt.go (Auth.Jwt). Auth.Tokens proves what they
--     mean for one another. Auth.HecTokens has the HEC tokens of the same three files.
--   * Ingest, further: Ingest.Limit is ingest/internal/ratelimit/ratelimit.go, whose script runs
--     as one step on a key of Redis; Ingest.Limit.Window proves it against the log of all calls.
--     Ingest.Hec is ingest/pkg/hec, Ingest.Http has requests and responses, and Ingest.Handler the
--     endpoints of ingest/internal/handlers/hec_handler.go over an `IngestService`: a handler is a
--     chain of parts, each of which answers at once or goes on. What other goroutines do to the
--     service between its calls is a parameter. Admission below it proves who gets through.
--     Ingest.Service.Drained is the processing loop without new events.
--   * Respond: Respond.Models has the types of respond/internal/models/models.go, Respond.Schemas
--     and Respond.Cases the tables and methods of respond/internal/repository/postgres.go, and
--     Respond.Service the methods of respond/internal/service/service.go over them. Versions,
--     Disabled and Lifecycle below it prove what the methods mean for one another; Scheduler is
--     respond/internal/scheduler/scheduler.go. A table is the list of its rows; ids are UUIDs as
--     texts in their canonical form, and Postgres's order on them is a parameter. The tables have
--     the columns that the statements name, also severity and created_by of cases, which the
--     migration does not make. The limits of the columns' lengths are left out.
--   * HecStats: common/hecstats/collector.go, whose flush is a step that takes the batches out and
--     one for each batch, whose increment of total_events Redis may apply though the answer is an
--     error; HecStats.Conserved counts the events.
--   * Fields.Rule: common/fields/validator.go; Fields.Rule.Agree compares its two walks over a
--     rule.
--
-- Conventions. A Go pointer is an `Option`; a map is the list of its entries; a struct that holds
-- itself is a constructor over a record of its plain fields. Go's `int` and `int64`, and the values
-- of metrics, are integers without bounds: the code compares them, and counts with them by ones and
-- by lengths. Times are nanoseconds since Go's zero time. Texts are valid UTF-8, on which Go's
-- byte-wise prefix, suffix and infix tests agree with those on characters. The order in which a Go
-- map is iterated is the order of the list; it affects only which of several errors is reported
-- first, and which of several sessions with one access token is found. What the code takes from
-- other packages is a parameter or an argument: `regexp.Compile`, `fmt.Sprintf("%v")`, `time.Now`,
-- `uuid.New`, `encoding/json`, bcrypt, the JWT library, conversions of floats, and OpenSearch's
-- answers. Where a method holds a lock for its whole body, a call of it is one step. No definition
-- runs on fuel: every recursion is on the structure of a query, a list or a text.
--
-- Not modelled: the clients of HTTP, NATS, Postgres, Redis and OpenSearch; the HTTP handlers of
-- authenticate, search and respond, and the alerts of respond; user administration and the Postgres
-- repository of authenticate; the dead letter queue; configuration and logging, the command line and
-- the web front end, which mostly call other programs or store data. The OCSF types and the
-- normalizers are generated code.
pub mod Auth
pub mod Fields
pub mod HecStats
pub mod Ingest
pub mod Prelude
pub mod Query
pub mod Rbac
pub mod Respond
