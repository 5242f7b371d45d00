-- ===== src/Lib.antt =====
-- WorkflowHub: services in NestJS behind an API gateway, which talk by gRPC, Kafka and RabbitMQ and
-- keep their state in MongoDB and Redis. This library models the logic of the services by pure
-- functions and proves what makes them correct.
--
-- How the program is modelled
--   Asynchronous code is a function from the state of the outside services to a result and a state
--   (`Promise` in Prelude/Async.antt): `await` is a bind, a thrown object is a value of `Error`, and
--   `try ... catch` and `finally` are functions. MongoDB, Redis, Kafka, bcrypt, the signer of tokens
--   and the remote services are records of operations, which every theorem takes as a parameter,
--   with laws (`IsLawful` and its like) that state what the code relies on. A call of such a service
--   may fail at any time, unless a theorem says that it does not. The laws are shown to hold of a
--   model in memory in the Tests modules. Logging is left out. A value that may be missing is an
--   Option; tests by truthiness are written out.
--
-- The parts
--   Prelude.antt, Prelude/: names of the libraries, lists, documents, promises, texts.
--   Outbox.antt, Outbox/Poller.antt: apps/task-service/src/schemas/outbox.schema.ts and
--     apps/task-service/src/task/outbox-poller.service.ts. `poll_outbox` is pollOutbox with its
--     flag, `process_events` its loop, `process_event` the body, `on_published` the success and
--     `on_error` the catch. The timer is the function `polls` of Outbox/Poller/Quarantine.antt.
--   Task.antt, Task/Service.antt, Task/Controller.antt: apps/task-service/src/schemas/task.schema.ts and
--     apps/task-service/src/task/task.service.ts, task.controller.ts. `create` is the transaction:
--     `write_both` is its try block and `roll_back` its catch.
--   Analytics.antt: apps/analytics-service/src. `ids` is the first test of handleTaskCreated, `handle_ids`
--     the lock, `count_locked` the increment under it.
--   Notification.antt: apps/notification-service/src and its schema.
--   Events.antt: the event task.created from the task service to both consumers.
--   Auth.antt, Auth/Service.antt, Auth/Controller.antt: apps/auth-service/src/auth. `register_new` is the part of
--     register after the test for an existing user.
--   Auth/Guard.antt, Auth/Jwt.antt: libs/auth/src. Auth/Session.antt joins it with the service.
--   HttpStatus.antt: errorFilter and toHttpStatus of
--     libs/shared/src/circuit-breaker/circuit-breaker.helper.ts.
--   Breaker.antt: wrapWithCircuitbreaker of the same file. `get_trap` is the trap of the proxy, `get_method` its
--     part for methods and `call` a call of what it returns.
--   Saga.antt: apps/api-gateway/src/auth/registration-saga.service.ts. `create_welcome` is the second
--     step and `notify` the third; each is given the rollback actions that are registered so far.
--   Saga/Joined.antt, Saga/Joined/: the saga over the code of the three services in place of its parameter;
--     Users.antt and Tasks.antt there fill what the saga asks of its services.
--   Throttle.antt: apps/api-gateway/src/common/guards/redis-throttler.guard.ts.
--   Gateway.antt: the controllers of apps/api-gateway/src.
--   Settings/: what the modules and the main.ts files of the services read of the environment, and
--     libs/shared/src/redis/redis.service.ts.
--   Gateway/Server.antt: apps/api-gateway/src/api-gateway.module.ts. `handle` is a request, from the guards
--     to the handler; `jwt_guard` is UseGuards of a controller. Gateway/Server/Creation.antt puts the code of
--     the task service behind it.
--   Dto.antt, Dto/: libs/shared/src/dto and the pipe of apps/api-gateway/src/main.ts. `read_task` and its like
--     are a body as a handler reads it.
--   Metrics.antt: apps/api-gateway/src/common/interceptors/metrics.interceptor.ts.
--   Rabbit.antt, Rabbit/: libs/shared/src/rabbitmq. `connect_loop` is the loop of connections of setupTopology,
--     `declare_triplet` the body of its second loop, `establish` its try block. `task_client_queue`,
--     `gateway_client_queue` and `consumer_queue` are the queues that
--     apps/task-service/src/task/task.module.ts, apps/api-gateway/src/auth/auth.module.ts and
--     apps/notification-service/src/main.ts declare. Rabbit/Broker.antt has the laws of the broker.
--   Json.antt: the values of JavaScript that the code takes apart, and their properties.
--   Correlation.antt, Correlation/: libs/shared/src/logging, but for tracer.ts. `intercept` answers the store of
--     the handler and the data that it is given; `receive` of Correlation/Attached.antt does so for a service,
--     by the way in which its main.ts starts it.
--   Pipeline.antt, Pipeline/: the task service, the outbox poller, a log of Kafka and the analytics service
--     together.
--
-- How they interact
--   The task service writes a task and an outbox row in one transaction; the poller publishes the row
--   to Kafka; the analytics and the notification service consume the message, each under a key in
--   Redis. The saga of the gateway calls the auth, the task and the notification service through
--   circuit breakers, whose errors become HTTP statuses. Its notifications go through RabbitMQ, under the
--   correlation id of the request; all who use the queue declare it, each with its own options.
--
-- Bounds
--   Every loop of the program that is modelled runs over a list, but for the loop of connections to
--   RabbitMQ, which is a recursion on the retries that are left. The only fuel is that of `decimal` in
--   Json.antt, which prints a number: it is given more steps than the number has digits. Numbers are natural
--   numbers without a bound; those of the program are counters of attempts, of requests and of
--   tasks, statuses and codes. `Number(text)` of JavaScript is a parameter, which answers only
--   natural numbers. The laws of Redis hold within the life of a key: 24 hours for the keys of
--   the consumers, one window for the counters of requests. A token is read for a day
--   from the time, in whole seconds, at which it was signed.
--
-- What is not modelled
--   What opossum does with its options, the delivery of messages by RabbitMQ, the tracer, the wiring of
--   the modules, how class-validator tests a value, the index of the outbox that deletes processed rows
--   after seven days, and the interleaving of handlers between two awaits, but for the race of two
--   registrations. Messages of RabbitMQ are JSON: the wire is a parameter that keeps what JSON can
--   write.
pub mod Prelude
pub mod Outbox
pub mod Task
pub mod Analytics
pub mod Gateway
pub mod HttpStatus
pub mod Breaker
pub mod Rabbit
pub mod Metrics
pub mod Pipeline
pub mod Dto
pub mod Settings
pub mod Saga
pub mod Auth
pub mod Notification
pub mod Json
pub mod Correlation
pub mod Events
pub mod Throttle
