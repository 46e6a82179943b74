-- ===== src/Lib.antt =====
-- The API server of prompt-pack, apps/api: the jobs that export audit archives, the API keys that
-- are to protect them, and the invoices.
--
-- Parts, and where they are modelled:
--   AuditZip/Types, AuditZip/JobState    the schema types of apps/api/internal/auditzip/api.gen.go,
--       the configuration of config.go, `jobState` and `JobQueue` of queue.go
--   AuditZip/Queue    queue.go: `enqueue`, `cancel`, `get`, `update_with_err`, `update_status`,
--       `set_retry_count` and `bump_progress` are the methods of the same names
--   AuditZip/Queue/Worker    queue.go: `runJob` with `processJob`, `persistArtifacts`, `completeJob`
--       and `failJob` as `worker_step`, and the deletion of artifacts as `retention_step`
--   AuditZip/Storage, AuditZip/Audit, AuditZip/RateLimiter, AuditZip/Validator    storage.go, audit.go
--       with the recorder of service.go, rate_limiter.go, validator.go
--   AuditZip/Service, AuditZip/Wire    service.go: `enqueue_audit_zip` and `get_audit_zip_job` are its
--       handlers, over the queue, the limiter and the audit log; the replies with their bodies
--   Auth/Domain, Auth/Scopes, Auth/Hash, Auth/Store, Auth/Middleware, Auth/Handler, Auth/RateLimiter
--       the files of these names in apps/api/internal/auth; Auth/Argon2 is the part of hash.go on argon2
--   Glue, AuditZip/Api, Pint/Api    the generated servers of auditzip/api.gen.go and
--       pint/jp_pint.gen.go: how a request's parameters are bound, the wrapper and the routes
--   Server/Cors, Server/Routes    apps/api/cmd/audit-zip/main.go: the CORS headers, and `handle`, one
--       request to the server, as a step on the two services; it goes through the glue of the audit
--       export and straight to the handlers of the invoices, as `main` does
--   Auth/Context    the context helpers of domain.go, and `protected`, a request through `Middleware`
--       and `RequireScope`; nothing in the repository mounts them, so Server does not have them
--   Auth/Audit    the audit entries of middleware.go, the recorder of store.go, and both composed with
--       the middleware as `serve`
--   Pint/Types, Pint/Validator, Pint/Ubl, Pint/Storage, Pint/Audit, Pint/Pdf    jp_pint.gen.go,
--       models.go, validator.go, ubl.go, storage.go, audit.go and pdf.go of apps/api/internal/pint
--   Pint/Pdf/Page    pdf.go: the page that `htmlTemplate` makes, as a list of pieces
--   Pint/Service    handler.go: `validate_invoice`, `issue_invoice` and `get_invoice`
--   AuditZip/Settings, Auth/Settings, Pint/Settings    `LoadConfig` of the three config.go files, over
--       the readers of the environment in Base/Env
--   Base/Hex, Base/Uuid    `newID` of the two id.go files, on the random bytes that it is given
--   Base    names, lists, maps, integers, texts, hash chains and the recorders of audit entries, which
--       the parts share
--
-- How the state is modelled. The queue's three maps alias one `*jobState`: a pointer is an index into
-- the list `heap`. What the queue's lock makes atomic is one function. A goroutine is a place in its
-- code (`Worker`), and one step of it is a stretch that no other goroutine can interrupt; `Step` of
-- AuditZip/Queue/Reach interleaves requests, goroutines and timers in any order; the runs in which no
-- cancellation is overwritten are `Calm` of AuditZip/Queue/Calm. The clock, the ids
-- of `uuid.New`, the timers and the random bytes are arguments (`Chance` for a request). Where a
-- handler looks at the queue twice, what the others do in between is an argument. Go's iteration over
-- a map is an argument too: a list of entries in any order. A float64 is its 64 bits, and its
-- arithmetic, like bcrypt, argon2, SHA-256, JSON and XML, is a parameter; what is assumed of bcrypt
-- and argon2 is `CryptoLaws` of Auth/Hash and `Argon2Laws` of Auth/Argon2: bcrypt matches a text against
-- its own hash, base64 and `Sscanf` read what base64 and `Sprintf` write. A panic is `none`, but for
-- that of argon2 at no rounds or threads, which is left out, and that of a PDF time zone that is not known,
-- which ends `IssueInvoice` with the status 0 (`aborted` of Pint/Service): no response is sent.
--
-- The only fuel is that of `decimal` in Base/Decimal, whose every call has one unit more than the
-- number; more fuel gives the same digits. The steps of a goroutine are counted by `budget` of
-- AuditZip/Queue/Settled.
--
-- A request to the server is its method, path, headers, query and body; chi's choice of a route, the
-- `runtime` package that converts a parameter, the JSON decoders and the escaping of `html/template`
-- are parameters (`World` of Server/Routes, `Binders` of Glue, `PageOps` of Pint/Pdf/Page). What other
-- goroutines do between two looks at the queue is part of `Luck`, and what they do between two requests
-- is the step `background` of Server/Download. The middleware of internal/auth holds the store's own key
-- behind `ValidateKey`: what it then reads of the clock and of that key is `Later` of Auth/Middleware. Its
-- audit log is read and appended to under two locks, and the entries that others append in between are
-- an argument (`between` of Auth/Audit). `HashChain` of the two services, which also looks at its recorder
-- twice, is one step of its handler.
--
-- Not modelled: the run of Chromium of pdf.go, which is a parameter; the logging; failures of the random
-- source; the bearer scopes that the generated code puts into the context, which nothing reads; the
-- loading of .env and `ListenAndServe`; and the web front end.
pub mod Base
pub mod AuditZip
pub mod Auth
pub mod Pint
pub mod Glue
pub mod Server
