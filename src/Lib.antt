-- ===== src/Lib.antt =====
-- HarborShield's backend: who may do what, what is stored where, and what the workers do.
--
-- HarborShield is an S3-compatible object store. Its services, in Go under backend/internal, keep
-- their state in PostgreSQL and are called by the routers of the S3 and the administration API and by
-- the worker (backend/cmd/worker). An administrator signs in for a session; a request of the S3 API is
-- authorized by the bucket policy and by the role statements of its subject; a write is checked against
-- the quotas, put on the local disk or on blob nodes, and becomes a version of its key; the worker
-- takes due jobs from a table, and one of the jobs delivers events to webhooks.
--
-- Which file models which part:
--
--   Policies       backend/internal/policies/policies.go and service.go. Patterns is `match`, Evaluation
--                  is `Evaluate` and `evaluateRoleStatements`, Tables the tables, Statements the
--                  operations on role statements and the list of roles, Bindings those on subject
--                  bindings with ResolveRole, Authorize is AuthorizeRole and AuthorizeSubject, Explain
--                  is ExplainSubjectAuthorization. A file below one of them has the proofs that its
--                  name says.
--   BucketPolicy   backend/internal/policies/aws_bucket_policy.go. Json has the decodings of
--                  encoding/json, Documents is `normalizeBucketPolicy` and what it calls, Jsonb is
--                  the JSONB column of the table and Ordered the documents that it returns as they
--                  are, Evaluate is `evaluateBucketPolicy`, Store the operations on the table. The
--                  other children have proofs.
--   Authz          backend/internal/authz: CheckRole and CheckSubject over the interface
--                  PolicyAuthorizer, which the policy service fills.
--   S3             backend/internal/s3/router.go: Authorization is authorizeBucketPolicyAware and what it
--                  calls, over the bucket policies and the authorizer.
--   Quotas         backend/internal/quotas: Checks is Allows, CheckObjectWrite and CurrentWarnings,
--                  Updates the writes, the recalculations and the lists, Int64 Go's int64.
--   Storage        backend/internal/storage/storage.go: Paths is filepath.Join and the trims, Local is
--                  LocalStore over a file system, Nodes the blob nodes and the network, Distributed is
--                  DistributedStore. RoundTrip, Effects, Replication and Rollback have proofs.
--   Objects        backend/internal/objects/service.go, over Quotas and Storage: Payload has the checks
--                  of a body, Placement the choice of nodes (with the storage classes of
--                  backend/internal/config/config.go) and recordPlacements, Storing is Put and Copy,
--                  Reading the look-ups and lists, Versions is Delete, DeleteVersion, RestoreLatest,
--                  SetLegalHold and PutTags, Lifecycle the expirations and PurgeDeletedBefore,
--                  Migration the move of local blobs to the nodes. The other children have proofs.
--   Auth           backend/internal/auth/service.go: Sessions is issueSession, Refresh, Logout and
--                  LogoutAll, Login is EnsureBootstrapAdmin, Login, ChangePassword and LoginOIDC. The
--                  other children have proofs.
--   Jobs           backend/internal/jobs/jobs.go.
--   Events         backend/internal/events/service.go: Targets has the event types and Emit,
--                  Deliveries is DeliverPending and what it calls, Listing is ListDeliveries. The
--                  other children have proofs.
--   Db             pgxpool as the services see it. An operation is an action on a world: its tables,
--                  and a schedule of the coming calls of the driver that fail. `zoom` runs an action of
--                  a part of the tables, by which a service calls another. The children have the rules
--                  by which facts on actions are proved.
--   Prelude        what the modules share: tests, lists, texts, sorting, look-ups.
--
-- How the state and the operations correspond. A method of a service is a function of the same name
-- in snake case. A table is a list of records with the columns the source uses; an SQL statement is
-- a function from tables to a result and tables, with the unique indexes and foreign keys of
-- backend/migrations; a statement runs whole or not at all, and a transaction is undone on an error.
-- A method that returns an error returns `err`, and whatever it wrote before stays written. A test
-- of an optional column is a test of an Option. A text is the list of its code points, and ORDER BY
-- compares code points. An identifier of the database is a number, and an id that does not parse is
-- an error of the driver. NOW() is an argument or a column of the tables. What is drawn at random
-- (identifiers, nonces, salts, refresh tokens) is an argument too. The files and the blob nodes stand
-- beside the tables, and a transaction that is undone leaves them as they are.
--
-- What may fail. Every call of the driver and of the file system may fail, and then does nothing. A
-- request to a blob node is answered, is refused with no effect, or is done without an answer, as a
-- schedule says.
--
-- Bounds. An int64 is a number below 2 ^ 64 and wraps around; the sizes of objects are BIGINTs that
-- are not negative; `attempts` of a job is an INTEGER, on which the claim fails when it is used up.
-- The loop of DeliverPending runs at most `limit` rounds, as the source's loop does; every other loop
-- is over a list. So no function takes fuel that the source does not have.
--
-- What is outside and a parameter: the package net (a record of its parsers and tests), the HTTP
-- client and the HMAC of a delivery, AES-GCM and the sealer of backend/internal/crypto, the digests of
-- payloads and secrets, bcrypt, the signature of a JWT, and ResolveStoragePolicy of the settings. Who
-- signed an S3 request is an argument.
--
-- Not modelled: the decoding of JSON text into values, DisallowUnknownFields among it (a document that
-- it refuses is `none`); the JSON text of columns but bucket_policies.document, whose values are
-- decoded by their keys or are passed on; the time stamps of rows that no operation reads; the
-- isolation of transactions that run at once (each runs alone, and the calls of several workers are
-- one sequence); strings.ToLower and TrimSpace beyond the
-- code points that they are defined for here; the signatures, URL escapes and TLS of the requests to
-- blob nodes, and what a node does with paths that filepath.Clean changes. Of the other services -
-- credentials, the storage topology, signatures and handlers of S3 requests, multipart uploads,
-- buckets, settings, malware scans, the middleware and the administration API - nothing is modelled
-- here.
pub mod Prelude
pub mod Db
pub mod Policies
pub mod BucketPolicy
pub mod Authz
pub mod Quotas
pub mod Jobs
pub mod Events
pub mod S3
pub mod Storage
pub mod Objects
pub mod Auth
