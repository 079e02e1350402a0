-- ===== src/Lib.antt =====
-- hermes_ai_devops: the control plane of a device test farm, written in Go. CI pushes packages of a
-- program; Runtime runs a durable workflow for each package, which leases a device, sends the task to
-- the agent of the host the device hangs on, waits for the result, decides the verdict by rules and
-- notifies people. This library models the parts that decide something.
--
--   Rules       runtime/internal/rules/rules.go: the frozen rule engine verdict-rules-v1, and the
--               routing of rule versions.
--   Store       runtime/internal/store: the in-process implementation MemStore of the store. A method
--               holds the store's mutex from its first line to its last, so it is one function from a
--               MemStore to a MemStore and an answer.
--     .State      the rows of all tables (store.go, devices.go, tasks.go, outbox.go, workflow_runs.go,
--                 evidence.go) and the payloads that the store shares with the workflow.
--     .Outbox     outbox.go: the transactional outbox.
--     .Devices    devices.go, fleet.go: heartbeats, selectors, quarantine.
--     .Leases     devices.go: AcquireDevice, ReleaseDevice, RenewLease, VerifyLease, GetLeaseExpiry.
--     .Tasks      tasks.go: tasks, their events and results.
--     .Artifacts  store.go: artifacts and the numbering of explicit retries.
--     .Runs       workflow_runs.go: the record of workflow runs.
--   Workflow    runtime/internal/workflow/devicetest.go, types.go: ids, failScope,
--               mergeSignatureHits, awaitResult, runAttempt and runTest.
--     .Main       the trunk: DeviceTestWorkflow, runParallelSpecs, demuxSignalLoop and the record of a run.
--   Activity    runtime/internal/activity/specs.go: the selection of the tests of a trigger.
--   Relay       runtime/internal/relay/relay.go: delivery of the outbox to Temporal and Feishu.
--   Callbacks   runtime/internal/callbacks/handler.go: what agents report.
--     .Heartbeat  the handler heartbeat: devices are written, leases renewed.
--     .Reports    the handlers taskEvent and result.
--     .Renewals, .Repeats, .Events, .Delivery  what heartbeats report, what becomes of repeated and failed
--                 reports, and how a result reaches the workflow through the relay.
--   Agent       agent/internal: the agent on the host of the devices.
--     .Adb        adb/adb.go: the commands, as the words given to adb, and the listing of devices.
--     .Run        executor/executor.go, manifest/manifest.go: options, manifest, errors, summary, and the
--                 monad of a run. adb's answer to a command may depend on all that was done before.
--     .Blame      executor.go: on whom a failure is charged.
--     .Locate, .Precheck, .Deploy, .Execute  executor.go, adb/soc_probe.go: the stages of Execute.
--     .Quiet      the acts that leave the status of a run alone.
--     .Journal    agent/internal/store/store.go: the agent's own record of its tasks and events.
--     .Reporter   reporter/events.go, client.go: the events of the tasks are sent to Runtime in order.
--     .Results    reporter/result.go: a result is built and sent.
--     .Server     server/tasks.go, server.go: tasks are admitted, asked for and canceled. Requests run
--                 side by side: the insertion of a request is also an act of its own, so that anything
--                 may come between it and the checks before it.
--     .TaskRun    server/tasks.go, runTask: the executor's statuses become events of the task.
--     .Text       the functions on texts and paths of Go's standard library.
--   Common      lists, maps, numbers and texts that the others share.
--
-- How they meet: the workflow calls the store's methods as activities (AcquireDevice, ReleaseDevice);
-- a callback saves a result and its event in one step (save_result_with_outbox); the relay claims the
-- event and wakes the workflow by a signal; the workflow then reads the result from the store and asks
-- the rules. The agent of the host admits the task, runs the package on the leased device, keeps each
-- change of the task in its journal and sends it to Runtime's callbacks, and then the result, on whom a
-- failure is blamed included. A release that puts a device into quarantine writes an event of its own,
-- which the relay turns into a notification.
--
-- How the code is read:
--   - a Go map is an association list; where the order of iteration matters (AcquireDevice) it is an
--     argument;
--   - time.Now(), random bytes, and what Temporal, the network and activities answer are arguments. A
--     time is a number of nanoseconds since Go's zero time, in the agent one of milliseconds;
--   - an int that the code never makes negative is a ℕ, another int is a ℤ; the counters of the source
--     are 64 bits wide and are taken not to overflow; strconv.Atoi refuses what does not fit 64 bits;
--   - a float64 is its bit pattern, since nothing here computes with one;
--   - an error is a none or a constructor of a result type; what is only logged is left out;
--   - of a branch on workflow.GetVersion the current side is modelled, so replays of old histories are
--     not;
--   - loops are structural recursion on the rows, the turns of a wait, the rounds of a loop or the
--     retries that are left. The only fuel is that of itoa: n + 1 rounds for a number n, of which each
--     divides by ten. Where the answers of the environment end, an attempt has no summary yet; the
--     theorems named _ends say how many answers are enough.
--
-- Not modelled: the PostgreSQL store (its behaviour is that of SQL), the trigger service, the signing of
-- uploads, the chat commands, evidence extraction, the clients of other services, the rest of the agent
-- (its heartbeat, its uploads, its process), the notification texts of the workflow, the other
-- activities, command line programs and scripts.
pub mod Common
pub mod Rules
pub mod Store
pub mod Workflow
pub mod Relay
pub mod Agent
pub mod Callbacks
pub mod Activity
