-- ===== src/Lib.antt =====
-- go-tempo: orchestration of workflows over PostgreSQL and Redis.
--
-- A client submits a workflow, a set of tasks that name the tasks they depend on. The service writes
-- it to the database in one transaction and pushes the tasks with no dependencies into a Redis list.
-- Workers pop ids, claim the task's row by its version, run the action, and publish a completion or a
-- termination. The coordinator receives these events, decrements the in-degrees of the children in
-- one UPDATE, and pushes those that reach 0; after a failure it also sets their skip hints, and a
-- worker skips such a task instead of running it.
--
-- The model is a state `World` (World/State) with the two tables, the two lists, the two channels, the
-- outages to come and the counters, and actions on it that may fail (World/Action). Every call of a
-- service takes one entry of `outages`, which says whether it fails; a failed call has no effect.
--
--   Domain/Tasks, Workflows, Events   internal/domain/task.go, workflow.go, events.go
--   External                          uuid's text form, jsonb, the constraints of the tables: parameters
--   World/Metrics                     the counters, gauges and sizes of internal/metrics/metrics.go
--   World/Rules, Tables, Queues       rules for properties that actions keep
--   Repository/Rows, Tasks, Dag       internal/core/postgres/repository/task_repository_impl.go
--   Repository/Workflows              internal/core/postgres/repository/workflow_repository_impl.go
--   Redis/Queue, Redis/EventBus       internal/infrastructure/redis/queue.go, event_bus.go
--   Mapper                            internal/mapper/workflow_mapper.go, internal/api/dto/request.go
--   Service                           internal/service/workflow_service.go, internal/api/handler/handler.go
--   Coordinator                       internal/coordinator/coordinator.go
--   Worker/Registry, Worker/Process   internal/worker/registry.go, worker.go
--   Worker/Phases                     ProcessNextTask as a machine: one call of a service at a time
--   Http/Requests, Middleware, Routes internal/api/middleware/prometheus.go, the routes of cmd/server/main.go
--   Collectors                        internal/metrics/collector.go
--   Instruments                       the declarations of internal/metrics/metrics.go
--   Instruments/Calls, Declared       the calls of metrics in the other packages, against these
--   System/Steps                      the workers and the coordinator that cmd/server/main.go starts
--   System/Threads                    StartPool: the ten threads, interleaved
--   Repository/Evolution, RowFacts, Locks, Keys, Retries, Waiting, Atomic
--                                     lemmas and theorems on the statements
--   Kahn/Ends, Counting, Refinement, Replay   the specification of the in-degrees
--   Service/Submission, Coordinator/Finish, Coordinator/Unblock, Redis/Fifo, Worker/Failures,
--   Worker/Outcomes, Timeouts, Sequential   theorems on the handlers
--   Http/Unserved, Counted            theorems on requests
--   System/Handlers, Progress, Claims, Lookup    theorems on runs of whole handlers
--   System/Advance, Invariant, Learning, Holding, Exclusion, Safety
--                                     what a thread knows of the row it holds
--   System/Histories                  what the statements keep, in runs of the threads
--   System/Tokens, TokenSteps, Releases, Covered, Handouts, Submissions, Once
--                                     who has been handed a task
--   System/Attempts, Exhaustion       a task that fails in each attempt
--   Completion/Counts, Rows, Track, Quiet    what holds of a workflow on its way, and when it is over
--   Completion/Work, Written, Worked, WorkerTurn
--                                     a turn of a main worker
--   Completion/Receive, Freed, Ended, Unblocked, After, CoordinatorTurn
--                                     a turn of the coordinator
--   Completion/Idle, Schedule         turns of all threads, in any fair order
--   Completion/Requests, Submitted, Start
--                                     from a request to its end
--   Ordering/Rows, Rules, Statements, Workers, Queries
--                                     tables with their rows in another order
--   Samples                           concrete services, workflows, and instances of the theorems
--
-- A function of the source has the same name here in snake_case. A uuid is a number. An integer of
-- the source is a natural number or an integer with no bound: counters of retries, versions and in-
-- degrees, which no run brings near the bounds of Go's int. There are two kinds of runs, both with
-- the steps in any order, and with outages and losses of messages anywhere. In `Reach` a step is a
-- whole handler. In `Run` the ten worker threads interleave: a step of a thread is one call of a
-- service and what follows it until the next call, while a round of the coordinator or of the HTTP
-- handler is one step. The theorem that a workflow ends is about blocks of turns, each the whole
-- handler of one thread, with services that answer and actions that succeed. No loop of the code
-- needs fuel: all run over finite lists, and BLPop on an empty list is a call that does not return.
-- `until_idle` runs a thread alone on fuel, and nine steps are enough for any task; `rounds` is the
-- endless loop of a thread, cut after some tasks.
--
-- Not modelled: clocks and durations, logs, the JSON text of events, gorm's relation Tasks, timers,
-- what gin and promhttp do (they are parameters), what an action does beside its result, the opening of connections, a handler that
-- panics, and a call that takes effect although its caller sees it fail.
pub mod Base
pub mod Domain
pub mod External
pub mod World
pub mod Repository
pub mod Redis
pub mod Kahn
pub mod Mapper
pub mod Service
pub mod Coordinator
pub mod Worker
pub mod Http
pub mod Collectors
pub mod Instruments
pub mod System
pub mod Completion
pub mod Ordering
mod Samples
