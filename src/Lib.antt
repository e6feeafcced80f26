-- ===== src/Lib.antt =====
-- A verification library for mock-server, a server that answers HTTP requests on endpoints that its
-- users define, and feeds message brokers.
--
-- The program's parts and the files that model them (paths from the repository's root):
--
-- internal/util/blocking_queue.go: Util/Queue.antt. Each method of BlockingQueue (is_full, put, get,
--   close) is one pass through its body under the mutex, on a record with the fields of the struct.
--   Util/Queue/Monitor.antt interleaves the passes of any number of goroutines, with those that
--   sleep at `Wait` and what `Signal` and `Broadcast` wake; an interleaving is a list of events.
--   The deque of github.com/gammazero/deque is a parameter with laws. The queue's int is ℤ.
-- internal/util/code_wrappers.go: Util/CodeWrappers.antt, texts as String; a slice expression that
--   panics is `none`.
-- internal/database/models.go, errors.go: Database/Documents.antt and Errors.antt. A BSON document
--   is a list of field names with texts.
-- internal/database/routes.go, esb_records.go, message_pools.go: Database/Store.antt holds what they
--   share (a collection with a unique key, and a cache in front of it), Database/Routes.antt the route
--   functions and their callers in internal/database/mongo.go. A method holds its RWMutex from the
--   first line to the last, so it is one step on the state. The MongoDB collection and
--   the cache are parameters with laws (Database/Driver.antt): the server may fail at any call,
--   and may have applied a write whose error is not that of a duplicate key; the cache may drop any
--   entry at any time.
-- internal/server: Server/Http.antt (responses), Server/StaticRoutes.antt, Server/ProxyRoutes.antt,
--   Server/DynamicRoutes.antt (the handlers under /api/routes), Server/NoRoute.antt (requests to mock
--   endpoints). A handler takes what gin's Bind and Query give it and returns the response.
--   Files, URLs and the script workers are interfaces (Server/Files.antt, Server/NoRoute.antt,
--   Coderun/RunScript.antt).
-- internal/database/esb_records.go, message_pools.go, task_messages.go: Database/Records.antt.
-- internal/brokers/mp_task_scheduler.go: Brokers/Scheduler.antt, a machine whose steps are the atomic
--   actions of the goroutines, over the queues of Util/Queue.antt and the set of Util/SyncSet.antt
--   (internal/util/sync_set.go). What a task's own methods return is part of a step. A step of
--   the end of a read does submitError and Remove, which touch different state. The calls of Stop are
--   steps in their order, its Wait included; Stop is called once. Brokers/Scheduler/Stopped.antt is about
--   the state in which it returns.
-- internal/brokers/registry.go, and the pools of kafka.go and rabbitmq.go: Brokers/Pools.antt,
--   Brokers/Registry.antt, Brokers/Registry/Stored.antt; Brokers/Pools/Kafka.antt and
--   Brokers/Pools/Rabbitmq.antt are the getters of each. The JSON codec and the brokers' clients are
--   parameters. A port is its decimal digits.
--   Brokers/Registry/TaskIds.antt is about the ids of the pools' tasks, Brokers/Scheduler/Scheduled.antt
--   about NewReadTask, NewWriteTask and Schedule.
-- internal/brokers/esb.go: Brokers/Esb.antt. The write tasks on which Schedule is called are listed.
--   Brokers/Esb/Delivered.antt puts it together with a worker's process.
-- The tasks of rabbitmq.go and kafka.go: Brokers/Tasks.antt holds the interface through which they use
--   the database and the ESB, Brokers/Tasks/Rabbitmq.antt and Brokers/Tasks/Kafka.antt their connecting,
--   reading and writing. What a select or Poll receives is a list of events.
--   Brokers/Tasks/Rabbitmq/Connections.antt has qread and qwrite of mp_task_scheduler.go on a task of
--   rabbitmq.go. Brokers/Tasks/Wired.antt fills the interface with Database/Records.antt and
--   Brokers/Esb.antt.
-- internal/coderun/watcher.go: Coderun/Watcher.antt, a machine whose steps are the atomic actions of the
--   repair loop, of the goroutines that borrow and return workers, and of Stop, and
--   Coderun/RunScript.antt, the request to a worker.
-- internal/coderun/worker/main.go and internal/coderun/scripts/runner.go: Coderun/Script.antt; the
--   request and its run put together are Coderun/Script/Delivery.antt, and the process from its start is
--   Coderun/Script/Main.antt.
-- internal/coderun/docker-provider/docker_adapter.go: Coderun/Docker.antt, over the Docker client.
-- internal/configs/brokers_cfg.go: Configs.antt; a sync.Once is a flag.
-- internal/util/file_storage.go and project_root.go: Util/Disk.antt, over the calls of the operating
--   system; Util/Disk/Loop.antt fills the interface of Server/Files.antt.
-- internal/server/pool_brokers_api.go, esb_brokers_api.go: Server/PoolBrokers.antt and
--   Server/EsbBrokers.antt; a handler lists the tasks that it schedules.
--
-- internal/server/server.go: Server/Router.antt is the list of what initMainRoutes registers,
--   Server/Serve.antt the server as a function from a request and a state, Server/Gin.antt what gin does
--   in between, as a parameter with laws. Server/Serve/Settled.antt has the requests that
--   leave no doubt about what is stored, Server/Serve/Calls.antt the route functions that a request
--   calls, Server/Serve/Frame.antt and Server/Serve/Invariants.antt what requests leave as it was,
--   Server/Serve/Caches.antt the invariant of all stores, and Server/Serve/Mocks.antt a whole session.
-- internal/database/database.go and the init functions of internal/database: Database/Init.antt, over the
--   driver and the server in memory.
-- cmd/server/main.go and internal/control/components.go, with Init, Start and Stop of internal/server/server.go: Control.antt,
--   as the list of calls up to the end or a panic. A panic of the server's goroutine while it begins to
--   listen is one of Start. The configuration that it reads, with parser.go and the other files of
--   internal/configs, is Configs/Service.antt.
-- The containers behind the workers of internal/coderun/watcher.go, from Init to Stop:
--   Coderun/Containers.antt, over Coderun/Docker.antt; the tool cmd/tools/build_worker_image.go is there too.
-- internal/util/sync_map.go: Util/SyncMap.antt.
--
-- Prelude.antt holds the shared notation and lemmas, and Tests.antt concrete instances of every
-- interface, on which the theorems are applied.
--
-- The loop of Write in Util/Disk.antt runs on fuel, one round more than the data has bytes, which
-- is enough since each round writes something. No other function needs fuel: the other loops of
-- the modelled code run over lists.
--
-- Not modelled: logging (internal/logger), the decoding of YAML, and cmd/playground, which tries the other
-- packages out. A stop of the process between a write to the collection and the write to the cache is
-- not modelled either.
--
-- A store is valid if its cache agrees with its collection and its routes have the fields of their
-- type (Database/Routes/Calls.antt). The database answers where no call of the driver fails for
-- reasons of its own (`Up` in Database/Driver.antt).
pub mod Prelude
pub mod Errors
pub mod Util
pub mod Brokers
pub mod Configs
pub mod Control
pub mod Coderun
pub mod Database
pub mod Server
pub mod Tests
