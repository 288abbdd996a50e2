-- ===== src/Lib.antt =====
-- skull, a server framework: a master engine that owns services, worker engines that run
-- transactions through workflows of modules, and background engines for slow calls.
--
-- The parts and how they interact. A request that has arrived is a transaction of an entity, and
-- waits in the input queue of the entity until it is delivered. A worker runs it through the
-- modules of its workflow (src/pto/sk_pto_workflow_run.c over src/common/sk_txn.c), which leaves
-- off while calls that a module waits for are under way. A module that runs calls a service. The
-- call goes as a message to the master, which pushes it as a task to the queue of the service
-- (src/components/sk_service.c over src/common/sk_queue.c) and starts what the queue lets run
-- together: reads, or one write. The started task runs in a worker or in a background engine, its
-- callback runs at the caller, and the master is told, counts the task off and schedules again
-- (the protocols of src/pto). Timer jobs of a service go the same way.
--
-- Files:
-- - Prelude, with Tests, Lists, Index, Counts, Checked, Holds and Int: the library's names,
--   Boolean tests, lists over the native numbers, results of code with assertions, C's `int`
--   without its bounds.
-- - Fmbuf: the ring of bytes of flibs, which the queue stands on, as an interface of operations
--   and laws that its users take as a parameter. Fmbuf.Model is an instance.
-- - Queue: the types, `_get_new_size`, `_sk_queue_push` and `_sk_queue_pull` of
--   src/common/sk_queue.c. Queue.Ops has the three modes and the public functions, under the
--   names of the source. Queue.View is the queue that the functions stand for, Queue.Buffer,
--   Queue.Pulling, Queue.Refine, Queue.Together, Queue.Laws, Queue.Create and Queue.Single are
--   the proofs, and Queue.Tests has runs.
-- - Service: the types of src/api/sk_service.h. Service.Ops has the scheduling of
--   src/components/sk_service.c, Service.System the handlers of src/pto/sk_pto_service_*.c and
--   sk_pto_timer_emit.c and the steps of a service among the messages under way. Service.Inv,
--   Service.Schedule, Service.Tasks, Service.Running, Service.Handlers and Service.Exclusion
--   are the proofs, Service.Data has src/common/sk_service_data.c and its guards, and
--   Service.Tests has runs.
-- - Fhash: the hash table of flibs, an interface like Fmbuf, with an instance in Fhash.Model.
-- - Txn: the types of src/common/sk_txn.c. Txn.Ops has its functions, Txn.Count and Txn.Tasks
--   are the proofs about its counters. Txn.Mbuf has src/common/sk_mbuf.c with the log and the
--   output of a transaction, where what `fmbuf_free` gives is the size less what is used, and the
--   loop of `sk_mbuf_push` has 66 rounds of fuel, since a size of 1 has passed half the address
--   space after 63; Txn.Grow, Txn.Log and Txn.Output are the proofs, Txn.Tests has a log.
-- - Entity: the part of src/entities/sk_entity.c that transactions use, and
--   `sk_driver_util_deliver` of src/drivers/sk_driver_utils.c.
-- - Workflow: the types of a run. Workflow.Run has src/pto/sk_pto_workflow_run.c, where
--   `run_module` is `_module_run` and `pack_module` is `_module_pack`. Workflow.Inv,
--   Workflow.Destroy, Workflow.Steps, Workflow.Total, Workflow.Life and Workflow.Waiting are
--   the proofs, and Workflow.Tests has runs, also of Txn. Workflow.Callback has what
--   src/pto/sk_pto_service_task_cb.c does to the transaction of a call that returns.
-- - EntityMgr: src/components/sk_entity_mgr.c, under its names; `remove` is a round of the loop
--   of `_cleanup_dead_entities`. EntityMgr.Clean, Delete, Table, Valid, Marked, Frees,
--   Cleaned, Reach and Destroy are the proofs, and EntityMgr.Tests has managers of two and three entities.
-- - Pto: src/pto/sk_pto.c, the packing of messages and their checksum, under its names.
--   Pto.Table is about its table, Pto.Sum about the checksum, Pto.Laws has the proofs,
--   Pto.Tests a message.
-- - EpPool: the types of src/components/sk_ep_pool.c, where EpData is `sk_ep_data_t`.
--   EpPool.Txns has what its functions do to one transaction, EpPool.Steps to one endpoint,
--   EpPool.Mgr to a manager, and EpPool.Send is `_sk_ep_send`; the names are those of the
--   source without the first `_`, and `on_recv_timeout`, `on_shutdown_ep` and `on_conn_timeout`
--   are the callbacks of its timers. EpPool.Good, GoodSteps, Count, Inv, Remove, Keep, KeepSend
--   and System are the proof of the invariant, EpPool.Error, Find, Time, Quiet and Answer the
--   other proofs, and EpPool.Tests has a small network.
-- - Sched: the types of src/components/sk_sched.c and src/common/sk_io.c. Sched.Route finds a
--   bridge, Sched.Ops sends, delivers and copies events, under the names of the source.
--   Sched.Buffers, Sched.RoundRobin, Sched.Laws and Sched.Copy are the proofs, Sched.Tests has
--   four schedulers.
-- - Timer: src/common/sk_timer_service.c and src/pto/sk_pto_timer_triggered.c, whose `_run` is
--   `timer_triggered_run`. Timer.Inv and Timer.Laws are the proofs, Timer.Tests has a timer.
-- - Config: the nodes of src/common/sk_config_loader.c and the records of src/api/sk_config.h.
--   Config.Values reads single values, with `strtol` and the other functions of C, Config.Workflows
--   and Config.Load are src/components/sk_config.c under its names without the first `_`, where
--   `load_module`, `load_port`, `load_sock_type`, `load_entry` and the functions in `_entry`,
--   `_entries` and `_items` are parts of its loops. Config.Outcome, Keys, Fields, Ports, Services,
--   Valid, Order and Laws are the proofs, Config.Tests has a configuration.
-- - Core: `sk_core_init` of src/components/sk_core.c. Core.Engines links the engines,
--   Core.Workflows and Core.Paths are the workflows, the drivers and the logs, Core.Init puts the
--   parts together. Core.Linked, Setup, Unique and Ready are the proofs, Core.Tests has a core.
--   Service.Create makes the queues of its services.
-- - Admin: the commands of src/components/sk_admin.c. `unpack_line` is `_admin_unpack` behind its
--   first test, `run_command` and `process_subcommand` the choices of `_admin_run` and
--   `_process_memory`, whose calls are data; Admin.Answer has the answer's lines and the
--   counters of the entities, where `append_line` is `_append_response` for a text that the format
--   gives. Admin.Unpack, Run, Response and Entities are the proofs, Admin.Tests has commands.
--
-- State is passed explicitly. `SK_ASSERT` ends a computation in `assert_failed`, a loop on fuel
-- that has run out in `out_of_fuel`. The loop of `_get_new_size` has 66 rounds of fuel: from any
-- size a `size_t` has been doubled to 0 by then. The loop of `sk_service_schedule_tasks` has as
-- many rounds as the queue holds bytes, and one: each round but the last takes an element.
-- `_get_new_size` of sk_io.c has 66 rounds too, and the round robin one round for each bridge.
-- `_run` calls itself at most four times in a row, so it has 5 rounds of fuel. The clock is a
-- function of how often it was read.
-- Messages under way are a list from which any may be handled next, so no order of threads is
-- left out. An `int` is an integer, or where it counts up from 0 a number, without bounds; a
-- `size_t` and a `uint32_t` wrap. The lists of flibs in EpPool are lists in the
-- order in which they are popped, and a push puts an entry at a place that is not told. Callbacks
-- of the user do not call back into the pool, what they do with timers are steps of their own, and
-- latencies are not modelled. The text of `sk_txn_log_add` has no zero byte, and `vsnprintf` does not
-- fail; `copy_event` is given the events that the loop over the event's counter has popped; that a
-- transaction in an input queue names the entity of the queue, which `sk_driver_util_deliver`
-- asserts, is taken for granted. In Service.System a handler asserts of the transaction or the
-- entity what its step's choice says.
--
-- A configuration is loaded from the tree of its nodes. `exit` and reads that C does not define are
-- outcomes of their own there, and a text is the list of its bytes. `sk_config_load` gives the tree
-- that libyaml parses, a parameter, and so are the lists and tables of flibs.
--
-- Not modelled: I/O, start and stop of threads, parsing of YAML, loading of code, logging, metrics,
-- the texts of the administrator's answers, the input of transactions, and the user libraries. The functions
-- of modules and services are outside; what the core reads of their outcome is a parameter of the
-- steps.
mod Prelude
pub mod Fmbuf
pub mod Queue
pub mod Service
pub mod Fhash
pub mod Txn
pub mod Entity
pub mod Workflow
pub mod EntityMgr
pub mod Pto
pub mod EpPool
pub mod Sched
pub mod Timer
pub mod Admin
pub mod Config
pub mod Core
