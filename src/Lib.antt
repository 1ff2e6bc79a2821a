-- ===== src/Lib.antt =====
-- A model of Grafux-mcp, the MCP runtime of Grafux: the in-process tool runtime and its sync with
-- the cloud, the invocation lifecycle, remote servers and connections, sandboxes, streaming, the
-- WebSocket gateway, the legacy and discovery endpoints, security, and what they stand on.
--
-- How the parts interact. A client calls a tool through the WebSocket gateway or through the
-- execution service. The gateway runs it at once in the tool executor; the service writes a row for
-- the invocation, registers a cancellation event, and runs it through the execution router with
-- retries, publishing events that subscribers read. The router sends the call to the executor, to a
-- pooled remote connection, or to a backend outside of the repository. The executor resolves names
-- in the registries that the plugin loader fills, from a tree of files that the cloud syncer keeps
-- like the cloud's. The legacy endpoint runs a tool in the executor, and where the tool is unknown it
-- pulls the tool's files from the cloud, reloads and runs it again. The server manager connects the
-- clients of remote servers, writes their status and health, and the health monitor checks them; the
-- discovery service lists the tools of connected servers into the tool registry.
--
-- Which file models which part.
--   Base: Python's dict (Dict), list, set and text operations, equality and tests, with lemmas.
--   Json, Json.Envelope: dynamic values; core/errors.py (tool_text, tool_error).
--   Exceptions: core/exceptions.py and the exception classes of Python that the code tells apart;
--     Result is what a call returns or raises.
--   Plugins: app/core/runtime/plugin_loader.py. The record Registry holds TOOLS, NAME_INDEX,
--     RESOURCES, PROMPTS, PLUGIN_ERRORS and the event _plugins_loaded. Plugins.Loader is
--     _load_directory, Plugins.Tree is load_plugins, reload_plugins and start_plugin_loader.
--     Plugins.Index, Loading and Reload hold the proofs.
--   Tools: app/core/runtime/tool_executor.py. Tools has the name resolution and the ownership check
--     of call_tool_direct, Tools.Editable the editable code, Tools.Executor the whole call;
--     Tools.Diagnostics is app/core/runtime/diagnostics.py. Tools.Ownership, Stale and Envelopes hold
--     the proofs.
--   Cancellation: app/core/runtime/cancellation.py.
--   Execution: app/services/execution_service.py, with the columns of app/models/invocation.py that
--     it writes and the publishing half of app/core/streaming/event_bus.py. Execution.Run is _run,
--     Execution.Service the public operations; Retries, Attempts, Outcome, Policy, Stream and
--     Requests hold the proofs.
--   Router: app/core/runtime/router.py; Router.Routes holds the proofs.
--   Pool: app/core/protocol/connection_pool.py. Pool has the entries, capacity, sweeps and shutdown,
--     Pool.Calls acquire and call_tool. Balance, Sessions, Lifetime, Eviction, Idle and Reuse hold the
--     proofs.
--   Cache: app/cache/redis_client.py, the in-process stand-in for Redis and the typed helpers; Cache.Mode
--     is the choice between it and a server; Expiry, Patterns and Channels hold the proofs.
--   Streams: app/core/streaming/stream_manager.py; Streams.Subscription is EventBus.subscribe; Members,
--     Broadcast and History hold the proofs.
--   Sync: app/core/runtime/cloud_syncer.py. Sync has the S3 listing and what is downloaded, deleted and
--     remembered, Sync.Whole sync_all, Sync.Single sync_tool, Sync.Supabase the listing of folders in
--     Supabase storage and sync_tool_from_supabase; Fetch, Mirror, Orphans, Again, Folders, Pull and
--     Uids hold the proofs.
--   Client: app/core/protocol/mcp_client.py, the wrapper with its fallback to HTTP; Requests holds the
--     proofs.
--   Servers: app/core/lifecycle/server_manager.py, over the status column and the connection rows;
--     Servers.Monitor is app/core/lifecycle/health_monitor.py. Manager, Clients, Phases, Changes, Steps
--     and Health hold the proofs.
--   Legacy: app/api/legacy.py, with the requests, reload and sync; Legacy.Calls is the call of a tool;
--     Answers holds the proofs.
--   Security: app/security/auth.py; Security.Permissions is app/security/permissions.py; Trust holds
--     the proofs.
--   Sandbox: app/integrations/e2b/sandbox.py; Sandbox.Executor is app/integrations/e2b/executor.py;
--     Teardown and Reuse hold the proofs.
--   Sessions: app/services/session_service.py and app/api/v1/sessions.py; Lookup holds the proofs.
--   Discovery: the listing of app/api/v1/discovery.py with its cache; Discovery.Service is
--     app/services/discovery_service.py with app/core/registry/capability_registry.py. Listing and
--     Refresh hold the proofs.
--   Outputs: app/core/runtime/output_files.py.
--   ToolRegistry: upsert_tools of app/core/registry/tool_registry.py; Statuses holds the proofs.
--   Negotiation: merge_capabilities of app/core/protocol/negotiation.py.
--   Gateway: app/api/ws/gateway.py. Gateway has the messages and the caller of a tool,
--     Gateway.Handlers the method handlers, Gateway.Session the dispatcher and the loop; Identity,
--     Answers and Departure hold the proofs.
--   The Tests module of a part has runs on concrete inputs.
--
-- How the code is translated. State is passed explicitly, and an operation that may raise gives a
-- Result beside the state that it leaves. A dict is an association list in insertion order, a set is
-- a list that holds each element once. What is decided outside of the repository is a parameter: what
-- a plugin file does when it is executed, what a tool gives back, the file system, the answers of a
-- backend and of a database commit for each attempt (the record Turn), the clock, json and fnmatch.
-- Numbers are natural numbers; times are in the unit of the clock. A request's parameters that the
-- code annotates as texts are texts or missing.
--
-- Bounds and recursion. The attempts of a run recurse over the MAX_RETRIES + 1 rounds of the source's
-- own loop; a subscription, a connection and a router's life are followed over a list of turns, as
-- long as one likes. The listing of folders in Supabase recurses on fuel that stands for Python's
-- recursion limit, and where it runs out the listing fails as the code's does.
--
-- Concurrency. An operation runs as one step between awaits that are not modelled: a run is modelled
-- from the moment that it holds a slot of the semaphore, a pooled call from the moment that its
-- entry's lock is granted, a reload under its lock. Entries of the pool that other calls hold are
-- states of the model (the field locked).
--
-- Files and rows. A path of the local tree is a text in normal form. A statement with its commit is
-- one transaction, which takes effect or raises and changes nothing; the discovery service, which goes
-- on after a refusal, keeps whether the transaction is aborted. A legacy body's "arguments" is
-- an object: what the executor does with another value is not modelled.
--
-- Not modelled: the clients of Composio and of the devices service, the registry and audit services,
-- the queries of the registries, the other endpoints under app/api/v1, start-up and settings,
-- the schemas, the declarations of the tables and the migrations. They are calls of outside services
-- and declarations; where a modelled part calls them they are parameters.
pub mod Base
pub mod Cache
pub mod Cancellation
pub mod Client
pub mod Discovery
pub mod Exceptions
pub mod Execution
pub mod Gateway
pub mod Json
pub mod Legacy
pub mod Negotiation
pub mod Outputs
pub mod Plugins
pub mod Pool
pub mod Router
pub mod Sandbox
pub mod Security
pub mod Servers
pub mod Sessions
pub mod Streams
pub mod Sync
pub mod ToolRegistry
pub mod Tools
