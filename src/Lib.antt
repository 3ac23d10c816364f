-- ===== src/Lib.antt =====
-- The Kubernetes ingress module for Caddy: a controller that turns Ingress objects into routes of
-- a running Caddy server, through the server's admin API.
--
-- The parts, and the files that model them:
--
-- - annotations.go: `Annotations/Names` holds the annotation constants, `Annotations/Config` the
--   types, `Annotations/Parse` the parsers and the three reads of ConfigMaps and Secrets, and
--   `Annotations/Resolve` the function `resolveAnnotations`, `Annotations/Fields` the log fields.
--   Proofs: `Entries` (lists), `Timeout`, `BodySize`, `Fetched` (directives and accounts) and
--   `WellFormed` (the whole configuration).
-- - routes.go: `Routes/Model` holds the route types with their JSON, `Routes/Handlers` the single
--   handlers, `Routes/Build` the chains (`buildHandlers`, `buildCoreHandlers`,
--   `buildIPGuardRoutes`, `corsPreflightRoute`), and `Routes/Convert` the functions
--   `convertIngress`, `httpRedirectRoutes`, `convertPath` and `routeID`. Proofs: `Chain`, `Rules`,
--   `Guards`, `Firewall`, `Upstream`, `Ids`, `Distinct`, `Nested` (the ids nested in a route),
--   `Shape` with `Shape/Chains` and `Shape/Converted`.
-- - admin.go: `Admin/Client` holds the exchange `do`, `getRoute`, `upsertRoute` and `deleteRoute`,
--   `Admin/Policies` the other operations. `Admin/Program` holds `upsertRoute` and `deleteRoute`
--   again, as programs that make one request at a time, and `Admin/Threads` what several
--   goroutines do with them. Proofs: `Upsert`, `Requests`, `Program/Agrees`, and under `Threads`:
--   `Programs`, `Steps`, `Pool` and `Bounds`.
-- - store.go: `Store/Interface` holds the interface and what a client relies on, `Store/Memory`
--   and `Store/Redis` the implementations, `Store/Choice` which one is taken; proofs:
--   `Store/RedisLaws`.
-- - access_log.go: `AccessLog/Manager` holds the state and the operations; proofs:
--   `AccessLog/Skipped`.
-- - tls.go: `Tls/Certs` holds the certificate manager, `Tls/Hosts` its `ManagedHosts`, and
--   `Tls/Threads` its calls cut where they take the mutex. Proofs: `Tls/Tracked`, `Tls/Managed`,
--   `Tls/References` (who references a secret), and under `Threads`: `Kept`, `Calls`, `Managed`
--   and `Agrees`.
-- - tls_policy.go: `Tls/Policy` holds the policies; proofs: `Tls/Subjects`.
-- - waf_cm.go: `WafMap` holds the functions; proofs: `WafMap/Ensured`.
-- - app.go: `App/Start` holds `Provision` and `run`, `App/State` the shared state, `App/Delete`
--   the function `handleDelete`, `App/Add` the function `handleAdd`, and `App/Events` the runs of
--   the events with the restoration before them, `App/Overlap` handlers whose requests interleave,
--   `App/Locks` the mutexes of the keys, `App/Lifecycle` the functions `Start` and `Stop` beside
--   the stages of `run`, and `Kube/Connect` how `Start` gets a client, which is the same in
--   reloader.go. Proofs: `Apart` and `Prepared` (what leaves routes alone), `Ids`, `Removed`,
--   `Placed` and `Reconciled` (the routes after a deletion and an addition), `Recorded`,
--   `Coherent` and `Owned` (the recorded ids), `Settled` (a second pass), `Ready` (the start),
--   `Overlap/Done`, `Overlap/Alone`, `Locks/Given` and `Locks/Exclusive`, `Lifecycle/Stopped`.
-- - reloader.go: `Reloader` holds the functions, `Start` among them; proofs: `Reloader/Changes`.
-- - caddyfile.go, and the block of reloader.go: `Caddyfile` holds the loops over the dispenser of
--   tokens, `Caddyfile/Options` the parsers; proofs: `Caddyfile/Loops` and `Caddyfile/Accepted`.
-- - Shared: `Signal` (channels and contexts that are closed), `Hosts` (the loops that collect
--   hosts without repetition), `Base` (numbers, options, lists), `Strings` (Go's `strings` and
--   `strconv`), `Dict` (maps), `Json`, and `Kube` (what is read of the Kubernetes objects).
--   `Tests` applies the theorems at concrete inputs.
--
-- How they interact: the annotations of an Ingress are resolved against the cluster to a
-- configuration; the conversion makes routes from the Ingress, the configuration and the global
-- security settings; the client brings each route to the server; the store keeps the ids of the
-- routes that an Ingress owns. `handleAdd` runs all of these for one Ingress, after the ConfigMap
-- with firewall rules exists, and brings certificates, policies and the access log along; the
-- reloader posts a changed configuration to the same admin API.
--
-- Conventions. An operation that talks to the outside takes the state of the world and returns a
-- result with the world after it. An `error` result is the text of the error, or `none` for `nil`;
-- an error whose text is only logged is `none` of an `Option`. A pointer that may be nil is an
-- `Option`. An `int` or `int64` is an integer; the one product that can leave the 64-bit range is
-- taken with wrap-around. A panic of an index out of range is `none`. A map is an association
-- list.
--
-- Parameters. The HTTP exchange, the wait between attempts, and the texts of `encoding/json` are
-- the record `Net`; `FallibleServer` (an admin API on a network that may fail), `Counter`,
-- `WriteCounter`, `RouteServer` and `IsSeparate` state what the theorems rely on. Caddy's index also
-- has the ids of objects nested in a route, as the program nests them: the servers come with an
-- assignment `home` of ids to top-level routes, their laws are about whole routes, and the theorems
-- ask that the routes of the program keep to it (`IsFit`), so that no id is both one route's and
-- nested in another. The reads of ConfigMaps and Secrets are the record `Cluster`, and with the writes the record `Kube`;
-- `json.Unmarshal` of a handler and SHA-256 are arguments, what client-go gives to `Start` is the
-- record `Environment`, the Redis client is the record `RedisClient`, and Caddy's dispenser of
-- tokens the record `Dispenser`. The texts are sequences of characters.
--
-- Fuel. The printing of a number takes the number plus one as fuel, which exceeds its digits; the
-- loop of `upsertRoute` is a recursion on its three attempts. The loops of the Caddyfile take as
-- fuel more than the tokens that are left, since each round takes one. The wait for the HTTPS
-- server takes as fuel more than the refusals before it is found.
--
-- Order. Go visits a map in no fixed order: where a result depends on it, the order is an argument
-- (`Visit`) of which the theorems assume that it meets each entry. In `Admin/Threads` and
-- `App/Overlap` the requests of several goroutines come in any order, in `Tls/Threads` the parts
-- of the calls under the mutex do, in `App/Locks` the calls of the handlers do, and in
-- `App/Lifecycle` the stop comes at any stage of `run`. Elsewhere a call is run from start to end.
--
-- Not modelled: the informers and the delivery of their events, the log output, the dialling of
-- Redis, and URLs that cannot be parsed. Handlers overlap in their requests about routes; the rest
-- of `handleAdd` and `handleDelete` (policies, access log, store) is run without a break.
pub mod Base
pub mod Strings
pub mod Dict
pub mod Json
pub mod Kube
pub mod Hosts
pub mod Annotations
pub mod Routes
pub mod Admin
pub mod Store
pub mod AccessLog
pub mod Tls
pub mod WafMap
pub mod App
pub mod Reloader
pub mod Caddyfile
pub mod Tests
pub mod Signal
