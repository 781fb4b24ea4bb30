-- ===== src/Lib.antt =====
-- wapo: a runtime for WebAssembly apps (wapo-host, wapo-env, wapo), the worker that serves them
-- (wapod), and the bridge between worker and chain (wapod-pherry).
--
-- A worker (wapod/src/state.rs) deploys apps, starts and stops instances of them within a limit, and
-- sends queries to the instances. The bridge (wapod-pherry/src/bridge.rs) selects apps by the balances
-- of their tickets on chain and makes the worker run those. Each instance is a WebAssembly guest with a
-- host context (wapo-host/src/runtime). The guest calls the host by ocalls, whose arguments and results
-- are machine words (wapo-env/src/args_stack.rs). A pending ocall leaves the id of a guest waker with the host; the
-- host queues the ids that are to be woken or dropped, and the guest's scheduler
-- (wapo-env/src/tasks.rs) works through the queue in each poll. The use of resources is counted in a
-- meter per run, and summed up per app.
--
-- The modules:
--   Prelude         Boolean tests, lists over native numbers, bits, integers, results.
--   Metrics         wapo-host/src/runtime/metrics.rs: `merge`, `to_metrics`, the counters of `Meter`.
--   Env             wapo-env/src/lib.rs and args_stack.rs: `OcallError`; Codec holds the trait
--                   `I32Convertible` as a record with laws and its implementations; Stack is `Nargs`;
--                   Int64 is `impl_codec64!`.
--   Guest           wapo-env/src/tasks.rs: Wakers has `intern_waker`, `wake_waker` and `drop_waker`;
--                   Tasks has `start_task` and `wapo_poll`; Io has the futures of wapo/src/net.rs,
--                   channel.rs and time.rs.
--   Host.TaskSet    wapo-host/src/runtime/vm_context.rs and async_context.rs: `TaskSet`, `GuestWaker`.
--   Host.Wakers     wapo-host/src/runtime/async_context.rs: `GuestWaker` and the relay wakers, with their
--                   reference counts; Counted has the accounts of all clones.
--   Host.Resources  wapo-host/src/runtime/resource.rs: `ResourceTable`; Poll has the polls of a resource.
--   Host.Context    wapo-host/src/runtime/vm_context.rs: `WapoCtx`, the ocalls that change it, and
--                   `push_query` and `push_http_request`; Services has those that only ask,
--                   Polls those that poll, and what becomes of the wakers that they are given.
--   Host.Memory     wapo-host/src/linear_memory.rs: `MemoryPool` and `Memory`.
--   Host.Service    wapo-host/src/service.rs: the task of an instance, its restarts and its end.
--   Host.Blobs      wapo-host/src/runtime/blobs.rs, and the ocalls of vm_context.rs on boot data; Names
--                   has the operations of a `BlobLoader` on the text of a hash.
--   Boundary        the futures of the guest on the ocalls of the host, and their wakers:
--                   the steps of both on shared waker ids.
--   Agent           sni-tls-listener/src/agent.rs: `AgentState`, with the channel of tokio and the
--                   listener as parameters; Delivery and Invariant say what becomes of connections,
--                   OnListener so for the listener of listener.rs.
--   Listener        sni-tls-listener/src/listener.rs: the listener of TLS connections, with the channel of
--                   tokio as a parameter; Operations says what a call does, Delivery who gets a
--                   connection.
--   Worker          wapod/src/state.rs: the state; Instances has `start_app`,
--                   `reserve_slot_if_needed`, `resize_app_instances` and `try_inc_instances`; Apps has
--                   deployment, removal, the clean-up task and the session; Queries has
--                   `prepare_instance_for_query`, `end_query` and the choice of an instance; Locks has
--                   `try_lock` and `unlock`, for each instance; HostFilter is wapod/src/tcp_acl.rs; Safety has all
--                   locked operations as one relation of steps.
--                   Rpc is wapod/src/prpc_service.rs, Reads the queries of `Worker` it answers with.
--   Prices          wapod-types/src/ticket.rs: `Prices`.
--   Bridge          wapod-pherry/src/bridge.rs: Plan has the choice of the apps by `update_plan`, Apply
--                   has `apply_plan`, Reports the rest and a turn of the loop; OnWorker has
--                   its calls as operations of the worker, and what the two reach together.
--   Tests           the theorems at concrete inputs.
--
-- A method that changes its object takes the state and returns it with the result. What runs while a
-- lock is held is one step; a method that takes the lock twice is modelled by its parts, and their
-- composition where nobody else comes between. Instants are numbers that the functions take as
-- arguments. Addresses, sessions and paths are numbers or lists of numbers. `service.start` is a
-- parameter: for each of its calls, the handle or a failure. All loops run
-- over lists or count down; but the two loops that try a TCP stream again take a number of rounds, since
-- nothing bounds how often tokio reports a stream as ready that is not: where the rounds are over, the
-- model has no answer, and what is proved of the wakers holds up to there too.
--
-- Not modelled: wasmtime, tokio, rustls, the file system and cryptography, and what only forwards to
-- them; the module loader and the run of a guest; the macros that generate the ocalls; the chain monitor
-- and the downloader of the bridge; and the command lines.
-- The calls of the bridge to worker, chain and downloader are the fields of one record; the theorems on
-- it state what they rely on as laws of that record.
pub mod Prelude
pub mod Metrics
pub mod Env
pub mod Guest
pub mod Host
pub mod Boundary
pub mod Agent
pub mod Worker
pub mod Tests
pub mod Bridge
pub mod Prices
pub mod Listener
