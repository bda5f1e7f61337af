-- ===== src/Lib.antt =====
-- A model of the services of the repository, in which what makes them correct is proved.
--
-- The program is three NestJS servers. Clients talk to the API gateway (api-gateway-server), which
-- verifies the token of a request, finds a route, checks the user against it, and forwards the request
-- by HTTP, or as an event on a RabbitMQ queue. The auth server (auth-server) keeps the users and their
-- roles, and gives out and renews tokens. The game event server (game-event-server) keeps events,
-- rewards and the users' requests for rewards; a reward request arrives over the queue, where an
-- interceptor acknowledges messages or retries them.
--
-- The files, with the code that each models (paths below the named server's src):
-- * Base, Http, Mongo: shared names; exceptions and the monad of an `async` method over a store; a
--   mongoose model as a record of operations with the laws that the MongoDB documentation gives.
--   `Mongo/Memory` is a collection that meets the laws, for concrete inputs. `Http/Reports` is what the
--   exception filters are given and answer.
-- * Event (game-event-server, modules/event): `Model` has the documents and DTOs, `Query` has
--   `findAll`, `findActiveEvents` and `findOne`, `Write` has `create`, `update` (as its read,
--   `prepare_update`, and its write, `commit_update`), `remove`, `permanentlyRemove` and `restore`,
--   `Controller` is event.controller.ts. `Steps` interleaves the writes of several clients.
-- * EventRequest (game-event-server, modules/event-request): `Service` is
--   services/reward-request.service.ts, `Listing` its listings, `Condition` the strategies and their
--   factory, `Eligibility` services/request-eligibility.service.ts, `Controller` the two controllers.
-- * Reward (game-event-server, modules/reward): `Model`, `Service` and `Controller` are the schema with
--   the DTO, reward.service.ts and reward.controller.ts.
-- * Access (game-event-server, common): the guards and the `User` decorator.
-- * Game (game-event-server): `Server` has the requests and messages that the server takes, each with
--   its guards and handler, over the three collections; `Answers` says what one of them does to the
--   data, `History` what any sequence of them keeps, and `Registry` how the reward requests look as an
--   abstract registry of claims. `Filter` is the exception filter around the handlers, `Clients` the
--   services of Redis and RabbitMQ.
-- * Message (game-event-server, common/interceptors/message.interceptor.ts): the calls on the channel
--   that an interceptor makes, in order; `Settlement` counts those that settle a delivery.
-- * Gateway (api-gateway-server, gateway, roles, auth/jwt.strategy.ts and common): `Path` is
--   utils/path-matcher.util.ts, which `Nodes` to `Matching` compare with segments, `Routes` the tables,
--   `Service` gateway.service.ts, `Controller` `handleRequest` of gateway.controller.ts, `Roles` the
--   guard and the roles service, `Guards` the JWT guard and the way of a request to the controller,
--   `Headers` and `Proxy` proxy.service.ts, `Queue` the messages. `Delivery` takes a message on to the
--   game event server. `Edge` has the exception filters and the timeout, `Correlation` the middleware
--   of the correlation id, `Health` the health checks.
-- * Auth (auth-server): `Users` is users/users.service.ts, `Tokens` is tokens/tokens.service.ts with
--   `logout` and `validateJwtToken` of auth/auth.service.ts, `Session` the rest of that service,
--   `Guards` the guards, the strategy and the decorators, `Server` the two controllers, `Edge` the filter
--   and the interceptor around them, `Health` the health check. `Requests` carries what the services
--   keep over to any requests; `Revoked`, `Refused` and `LoggedOut` follow a token after its
--   logout. `Memory` and
--   `PassportMemory` are a Redis and a passport that meet their laws, for concrete inputs.
-- The modules whose names end in Examples hold tests and the theorems at concrete inputs.
--
-- State is passed explicitly: an `async` method is a function from a store to a result and a
-- store, and what it wrote before it threw stays written. Where requests interleave, a step is
-- what a method does in one write, and a read is an argument of the step. Dates are milliseconds;
-- the clock, new ids, the reading of a date, bcrypt, Redis, the JWT library and the channel are
-- arguments. Of the two readings of the clock in one reward request the model has one.
-- JavaScript's numbers are natural numbers here: no version, count or date of these services is
-- negative or a fraction, and no page or limit of an event list, which validation keeps at 1 or more.
-- A page and a limit of a listing of reward requests are any whole numbers. Loops are structural; the
-- run of a regular expression goes along the path, and the expressions are those of patterns without
-- special characters, as the patterns of the tables are. The methods of the users run one after
-- another.
--
-- Passport, axios, the client of RabbitMQ, Terminus, the operator `timeout` of rxjs and the way in
-- which NestJS picks a filter are records with the laws that their documentation gives. A `SET` of
-- Redis that fails was done or not. Signing a token does not fail in the model: the secret and the
-- lifetimes of the configuration are taken to be proper ones.
--
-- Not modelled: what RabbitMQ does with the calls on a channel; the validation of DTOs by decorators,
-- which the framework runs before a handler; the middleware and the interceptor that only write log
-- lines; the limit on the rate of requests, which is the framework's; and the wiring of the framework.
pub mod Base
pub mod Http
pub mod Mongo
pub mod Event
pub mod EventRequest
pub mod Access
pub mod Message
pub mod Reward
pub mod Game
pub mod Gateway
pub mod Auth
