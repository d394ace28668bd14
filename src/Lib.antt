-- ===== src/Lib.antt =====
-- Quantum Control: the security core of the control plane and of its privileged broker.
--
-- The public process (cmd/quantum-control, internal/control) authenticates an actor, asks the broker
-- to plan an operation, and keeps the plan. The broker (cmd/qcored, internal/broker) validates
-- requests against a catalog, issues a confirmation grant to a human approver, consumes the grant
-- when the operation is executed, and changes services through systemd. Both write what they do to an
-- audit log whose records form a hash chain.
--
--  * Prelude, Text, Clock: Boolean tests, lists and results; byte texts with the functions of strings,
--    unicode, sort and encoding/hex that the program calls; instants and durations.
--  * Protocol: internal/protocol/types.go. A Go map is an association list in the order of one
--    iteration over it.
--  * Security.Types: internal/security/types.go.
--  * Security.Actor, Security.Auth, Security.Digest: internal/security/auth.go. `normalize_actor` is
--    normalizeActor, `load_actor_registry` is LoadActorRegistry, `authenticate_bearer` is
--    AuthenticateBearer of the registry.
--  * Security.Plan, Security.Cache: internal/security/plan.go. `build` is PlanBuilder.Build, `put` and
--    `get` are those of PlanCache.
--  * Security.Grants: internal/security/grants.go. `issue` and `consume` take the store and its file,
--    and give the answer with the store and the file behind the call. A sequence of calls is a list
--    of Security.Grants.History.Call.
--  * Security.Redact, Security.Audit: internal/security/audit.go. `append` takes the store and the
--    bytes of its file, `open_audit_store` reads them back line by line.
--  * ServiceControl: policy.go and controller.go of internal/servicecontrol.
--  * Broker.Registry, Broker.Mutations: registry.go and mutations.go of internal/broker, over the host
--    that Broker.Host describes.
--  * Broker.Approved: ValidateApprovedPlan and ExecuteApproved of mutations.go, authenticateActor of
--    approval.go and handleExecuteApproved of server.go, behind the decoding of the request. The panic
--    of a nil handler is a response that is missing.
--  * Broker.Direct: Execute of registry.go.
--  * Broker.Server: server.go, the routes of the broker behind its token and the decoding of a body.
--  * Broker.Client: client.go, the client that Control takes as its broker. A connection hands over what
--    the client sends and gives back a status and the bytes of a body.
--    Broker.Client.Exchange and Broker.Client.Delivery join it to Broker.Server.
--  * Control: internal/control. Control.Server has the server, its state and its replies; Control.Auth
--    the test of a request's permission; Control.Operations, Control.Approvals and Control.Reading the
--    handlers; Control.Routes the table of the routes; Control.Dependencies what the server is made
--    from. The broker and the inventory are the interfaces that the server calls.
--  * Config: internal/config. Commands: cmd/qcored/main.go up to the listener.
--  * Inventory: internal/inventory. Inventory.Steps has the bodies of the loops of
--    scanDefinition, Inventory.Scan the loops over an observer of the host and the classification,
--    Inventory.Service the scanner that Control calls, Inventory.Definitions its components.
--  * Checks: the theorems at concrete inputs.
--
-- A value of the clock, random bytes and the outcome of each call to the file system are arguments,
-- so that every failure is covered. SHA-256 is a record (Security.Digest.Sha256) of which a digest of
-- 32 bytes is assumed, and no more: where a theorem needs that two inputs do not collide it says so.
-- The JSON encoder and decoder are arguments, with the hypotheses that a theorem names; that a value is
-- read back as it was written is assumed of single values only, since encoding/json gives back other
-- texts for those that are not valid UTF-8. A mutex makes
-- each operation of a store one step. A sequence number is one of 64 bits and wraps.
--
-- The polling loop of the broker takes fuel, one unit for each round; a host whose context has a
-- deadline (Broker.Host.HasDeadline) bounds the rounds. Every other loop is structural.
--
-- The control server and the broker handle the requests of a sequence one after the other. The
-- multiplexers of net/http, which find the route of a request, are outside: a request comes with its
-- route and with what the decoder makes of its body.
--
-- Not modelled: the socket between the two processes (listener.go of internal/broker), the client of
-- the health endpoints, the probe of the system, the native observer of the inventory, logging, and
-- the signals and flags of the commands.
pub mod Prelude
pub mod Text
pub mod Clock
pub mod Protocol
pub mod Security
pub mod ServiceControl
pub mod Broker
pub mod Inventory
pub mod Config
pub mod Control
pub mod Commands
pub mod Checks
