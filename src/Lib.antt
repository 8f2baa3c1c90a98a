-- ===== src/Lib.antt =====
-- The backend of a chat application with calls (src/ of the repository, a NestJS program in
-- TypeScript): HTTP controllers and socket gateways over services, which keep their documents in
-- MongoDB. This library models components of its own logic and proves what makes them correct.
--
-- `Base` has what the modules share: texts, numbers and Booleans as JavaScript compares them,
-- arrays (`Base.Lists`), `Map` with its insertion order (`Base.Maps`), calls that may throw
-- (`Base.Throws`) and collections of documents in MongoDB (`Base.Collections`, `Base.Counts`). Times are milliseconds, as natural numbers; texts are compared, never walked,
-- unless a module says otherwise.
--
-- The signalling gateway (src/gateways/webrtc.gateway.ts) is modelled by Webrtc. `Webrtc.State` has
-- the maps `connectedUsers` and `activeCalls` and the effects of a handler in order; `Webrtc.Calls`,
-- `Webrtc.Presence` and `Webrtc.Relay` have one function to a handler, named after it; and
-- `Webrtc.Actions` has runs of handlers. A handler takes what its environment answers (the token
-- check, `UsersService`, `CallsService.create`) as arguments that may throw, and the clock. A user
-- id that JavaScript has as undefined or "" is "". The handlers are asynchronous, and the model
-- lets each run to its end before the next begins: interleavings at an `await` are not modelled.
--
-- Polls (src/modules/polls) are modelled by Polls: `Polls.Poll` has the document and the steps on
-- its options, `Polls.Service` the methods of `PollsService`, each a function of the document that
-- the driver finds (or none) to the document that is stored or the exception that it throws; a
-- vote gives the answered document beside the stored one. `Polls.Lost` has the requests of a run.
-- What `poll.creatorId.toString()` gives after `populate`, the ids that `uuidv4` draws, the answer
-- of `MessagesService.createMessage` and the rounding of a percentage are arguments.
--
-- Stored calls (src/modules/calls) are modelled by Calls: `Calls.Document` has the schema and the
-- transfer objects, `Calls.Service` the methods of `CallsService` over the document that the driver
-- finds. What the schema's default gives for `joinedAt`, the test of an id and the printing of
-- numbers are arguments; the clock does not run backwards.
--
-- The search tree (src/common/search/trie.service.ts) is modelled by Trie: `Trie.Node` has the tree
-- and the texts, which are lists of UTF-16 units; `Trie.Words` the operations on words,
-- `Trie.Prefix` the search by a prefix and the statistics, and `Trie.Fuzzy` the fuzzy search with its
-- table of distances. A key of a node's children is a code point. The change of a tree in place is
-- a function to the changed tree. The stable sort of an array is by insertion.
--
-- Conversations (src/modules/conversations) are modelled by Conversations: `Conversations.Document`
-- has the schema and the driver, an interface of operations with the laws that the service relies
-- on; `Conversations.Service` has the methods of `ConversationsService` over it. A method takes the
-- store and gives the store after it and its result; the store does not change in between.
-- `Conversations.Memory` fills the interface by documents in memory.
--
-- Rate limits are modelled by RateLimit: `RateLimit.Guard` has the guard that counts in memory
-- (src/common/guards/rate-limit.guard.ts), with the clean-up of its timer, and `RateLimit.Redis` the
-- limiter of src/common/throttler/redis-rate-limit.config.ts over the commands of Redis, an
-- interface with the laws that the limiter relies on. `RateLimit.Memory` fills it.
--
-- The authentication service (src/microservices/auth-service) is modelled by Auth: `Auth.Otp` has
-- `OtpService`, `Auth.Sessions` has `SessionService`, over collections of documents
-- (`Base.Collections`: an interface of the driver with the laws that the services rely on, which a
-- list fills) and a cache. Requests are served one after the other. `Auth.Devices` and
-- `Auth.Waiting` have the requests of a run.
--
-- Huddles (src/modules/huddle) are modelled by Huddles: `Huddles.Document` has the schema, the
-- transfer objects and the factory, `Huddles.Repository` `HuddleRepository` over a collection, and
-- `Huddles.Service` the services for creation, participants and queries. The requests of a run are
-- those of `Huddles.Runs`, forced leaves included.
--
-- Messages (src/modules/messages) are modelled by Messages: `Messages.Document` has the schema and
-- `Messages.Service` the methods of `MessagesService` over a collection of messages; a new message is
-- made the last of its conversation by the service of Conversations. `Messages.Runs` has the requests
-- of a run.
--
-- Communities (src/modules/communities) are modelled by Communities: `Communities.Service` has the
-- schema and the methods of `CommunitiesService` over the document that the driver finds. The
-- requests of a run are those of `Communities.Admins`: a `Request` is any but `updateCommunity`,
-- which assigns any field, and a `Demand` is any.
--
-- Scheduled messages (src/modules/scheduled-messages) are modelled by Scheduled: `Scheduled.Service`
-- has the schema and the methods of `ScheduledMessagesService` that change state, over the stored
-- documents, with the loop of the scheduler, in which the driver may refuse to save a document. `Scheduled.Once`
-- has the requests of a run, `Scheduled.Due` what a run of the scheduler leaves.
--
-- Helpers (src/common/utils/helpers.ts) are modelled by Helpers: `Helpers.Arrays` has paginate,
-- parallelLimit, groupByMultiple and toLookup, `Helpers.Numbers` clamp, simpleHash on residues modulo
-- 2^32, and maskString on code units, and `Helpers.Retry` retry over the operations that it calls.
-- Numbers are not negative. `chunk` of lodash is an argument.
--
-- Not modelled: the transport (HTTP, sockets, message brokers), the persistence and cache drivers,
-- logging and monitoring, configuration, and the modules that mostly pass calls to third parties.
mod Base
pub mod Auth
pub mod Calls
pub mod Communities
pub mod Conversations
pub mod Helpers
pub mod Huddles
pub mod Messages
pub mod Polls
pub mod RateLimit
pub mod Scheduled
pub mod Trie
pub mod Webrtc
