-- ===== src/Lib.antt =====
-- RideShare, a ride-sharing backend in Go: an API gateway and gRPC services for accounts, profiles,
-- rides, locations and payments, over PostgreSQL, Redis and Kafka. This library models the parts that
-- carry its rules and proves what keeps them.
--
-- How the parts interact. A request passes the gateway's middleware and reaches an HTTP handler,
-- which reads its body or its query, takes the caller from the token, and calls a service over
-- gRPC. The service's method there parses ids, calls the service and turns its answer into a
-- message, its error into a status. A handler of a service is one call: it makes round trips to the
-- database and to Redis, calls other services, and returns a value or an error. The ride service
-- asks the location service for drivers, takes a lock in Redis while it matches, and hands events
-- to Kafka. The auth service counts failed logins in memory and makes the tokens that the
-- middleware checks. The payment service charges through a provider. The notification hub holds the
-- WebSocket connections; its messages come from callers of its channel.
--
-- The files, and the code each is about:
--   Prelude, Prelude/Tests, Prelude/Lists, Prelude/Table: shared names, Boolean tests, lists, and
--     tables of rows found by a key;
--   Rpc: what crosses the gRPC connections; Http: what the handlers answer;
--   Errors: pkg/errors/errors.go; Models: internal/models/models.go; Geo: pkg/geo/geo.go;
--   Floats: float64 as a parameter with the laws `IsIeee`; Floats/Fixed: an instance of them;
--   Database: WithTx of pkg/db/postgres.go, the world that a call changes and what it is built from;
--     Database/Atomic: transactions; Database/Triple: the rules by which a call is proved correct;
--     Database/Leaves: the rules for what a call leaves as it is;
--   Redis: the lock of pkg/redis/redis.go; Redis/Exclusion, Redis/Retry, Redis/Silent: its theorems;
--   Security: LoginAttemptTracker and UserRateLimiter of pkg/security/security.go; Security/Run and
--     Security/Lockout for the first, Security/Windows for the second;
--   Pagination: pkg/pagination/pagination.go; Pagination/Bounds, Pagination/Pages: its theorems;
--   Jwt: pkg/jwt/jwt.go; Jwt/Audience: its theorems;
--   Auth/Repository: internal/auth/repository.go; Auth/Service: internal/auth/service.go (register is
--     Register, login is Login, refresh_token is RefreshToken); Auth/Accounts, Auth/Register,
--     Auth/Consistency, Auth/Login: their theorems; Auth/Grpc: internal/auth/grpc_server.go and
--     handler.go; Auth/Boundary: their theorems;
--   Account: internal/user/repository.go and service.go; Account/Profile: its theorems;
--     Account/Grpc: grpc_server.go and handler.go there; Account/Boundary: their theorems;
--   Ride/Fsm: internal/ride/fsm.go; Ride/Surge: surge.go; Ride/Repository: repository.go;
--     Ride/Matching and Ride/Service: service.go (match_driver is matchDriver; request_ride is
--     RequestRide, accept_ride is AcceptRide, complete_ride is CompleteRide, cancel_ride is
--     CancelRide); Ride/Invariant: what holds of the table between calls; Ride/Run: sequences of calls;
--     below them, the theorems; Ride/Grpc: grpc_server.go and handler.go there; Ride/Boundary: their
--     theorems;
--   Payment: internal/payment/payment.go; Payment/Charges, Payment/Repeats: its theorems;
--     Payment/Stripe: StripeStub; Payment/Grpc: grpc_server.go and handler.go there;
--   Postgis: find_nearby_drivers of migrations/004_create_locations.up.sql;
--   Location: internal/location/location.go; Location/Grpc: grpc_client.go, grpc_server.go and
--     handler.go there; Location/Order, Location/Answers, Location/Boundary: the theorems;
--   Notification: the hub and its clients of internal/notification/hub.go, and handler.go there
--     (on_register, on_unregister and on_broadcast are the branches of Run); Notification/Run: the
--     goroutines as events; Notification/Safety, Notification/Delivery, Notification/Stuck: the
--     theorems, and the other files below it their lemmas;
--   Middleware: pkg/middleware/middleware.go; Middleware/Bearer: how the token is read;
--   Gateway: cmd/gateway/main.go; Gateway/Chain and Gateway/Access: who reaches the
--     protected routes;
--   Config: pkg/config/config.go; Config/Brokers: the list that a setting holds;
--   Kafka: Consume of pkg/kafka/kafka.go; Kafka/Consumed: which messages reach the handler;
--   the files called Tests run the code on small inputs.
--
-- The state. `World` holds the tables, the keys of Redis, the events handed to Kafka, the
-- transactions that the payment provider captured, the failed logins, and the number of round trips
-- made so far. An action maps a world to a result and a world. What the program does not decide
-- (the error of a round trip, the clock, generated ids, an expired context) is in `Env`, a function
-- of that number, so that a theorem holds for every pattern of faults. A transaction works on the
-- tables in place; an error, or a commit that is refused, restores them. An expired timeout is one
-- of the faults. A statement that fails may have been carried out, its answer lost: the environment
-- says so too. A commit, or a command of Redis, that fails has had no effect; that one of these is
-- carried out and its answer lost is not covered.
--
-- The hub's state is its map of clients and a store of every client made, with its channel of 256
-- messages; an event is a turn of one goroutine, or the meeting of a sender and a receiver on an
-- unbuffered channel, and a run is a list of events in any order.
--
-- Assumptions. Identifiers are compared only, and times are nanoseconds: both are natural numbers.
-- Calls take effect one after another: the handlers lock the row that they change, and what two
-- RequestRide of one rider at once do is not covered. Primary keys are checked; the foreign keys of
-- rides, payments and locations are not, and the server's other refusals are faults. A NUMERIC
-- column of two decimals gives back what a parameter makes of the value; the fare and the surge are
-- computed with no more decimals, and are kept as they are. Counters that one request raises by one
-- stay below the largest int. float64, golang-jwt, bcrypt, the payment provider, the geo set of
-- Redis, the distances of PostGIS (find_nearby_drivers of migrations/004 is modelled over them),
-- the token bucket, the upgrade of a connection, json.Marshal, the parsing of numbers and of ids
-- and the normalisation of emails are parameters, and the ride service has the location service as
-- one; a gRPC connection may lose a request or its answer; the theorems name what they use of them.
--
-- Loops. The retry loop of the lock recurses on the attempts left; loops over rows and statuses recurse
-- on the list. No fuel is used.
--
-- Not modelled: NewPool, NewClient and the rest of the programs, which open connections and start
-- servers; the producer of Kafka and what makes its clients, which call kafka-go only; logging,
-- tracing and metrics, with GetStats and the middleware that copies a trace id; the generated code.
pub mod Prelude
pub mod Errors
pub mod Models
pub mod Floats
pub mod Geo
pub mod Security
pub mod Database
pub mod Redis
pub mod Pagination
pub mod Jwt
pub mod Auth
pub mod Account
pub mod Ride
pub mod Payment
pub mod Notification
pub mod Rpc
pub mod Http
pub mod Middleware
pub mod Gateway
pub mod Postgis
pub mod Location
pub mod Config
pub mod Kafka
