-- ===== src/Lib.antt =====
-- Verification of the API of VM-X AI: the path of a completion request through packages/api/src.
--
-- A request names an AI resource. The completion service chooses a model of the resource, asks the
-- gate whether the request may pass, calls the provider, counts the tokens of the answer and records
-- what happened; if an attempt fails it goes on with the next fallback model. The gate resolves the
-- capacities that limit the request, reads their counters in Redis, checks each, asks the
-- prioritization for a share of the connection, and counts the request. Apart from that, the roles of
-- a user decide which calls of the API are allowed, and a key of the API may call some resources only.
--
-- Parts, and the code that they model:
--   Common: tests, lists, association lists, results and integers that all parts use.
--   Capacity: capacity/capacity.entity.ts. Its child modules are capacity/capacity.service.ts:
--     Period (getRemainingSeconds...), Keys (getResourceKeyPrefix, resolveCapacityKeyPrefix), Usage
--     (getUsage) with Usage.Lookup and Usage.Covers on its answers, and Resolve (resolve).
--   Entities: the fields that are read of connections, resources, API keys and pool definitions.
--   Http: utils/http.ts. Errors: completion/completion.types.ts.
--   Redis: the commands that the counters use, as an interface, and an instance in memory.
--   Prioritization: prioritization/strategy. Allocations and Scaling are the loop of `gate` in
--     adaptive-token-scaling.ts, Gate the rest of it over the two repositories, an interface;
--     Storage is those of prioritization/storage/redis, with Window about the minutes they read;
--     Limits and Rank are about the loop, Admission about the whole.
--   Gate: completion/gate.service.ts. Limits is checkRequestCapacity, Counters are
--     increaseRpmTpmCounters and increaseTokenResponseUsage, Request is requestGate; Checks is about
--     which requests are let in, Applied about the limits that apply to them, Window about the counters of one period.
--   Role: validate of role/role.service.ts, with Members and Membership on the rows of
--     memberships, and Decision on what validate decides. Cache has the operations of the service
--     with their caches; Fresh, Keeps and Refines are about them.
--   Completion: completion/completion.service.ts. Records is what is thrown and recorded, Select the
--     choice of the model, Attempt the body of the loop and postCompletion, Run the loop and the whole
--     method; Fallback and Order are about the loop, Accounting about the whole. Discovered is the end of
--     postCompletion, with Settled about it.
--   Routing: completion/routing.service.ts over ai-resource/common/routing.entity.ts. Match is
--     matchCondition, with Plain about it; Truth is about the nested conditions, Routes
--     about which group of them decides.
--   Batch: completion/batch. Keys and Members are the keys in Redis and the members of the
--     queues, Retrieve the script of retrieveItems, with Script and Moved about it. Queue has the
--     other operations of batch-queue.service.ts on items, and Machine all of them in any order,
--     with crashes between the commands; Placed, Payloads, Keep, Handled, Taken and Strand are about
--     the machine. Available is the loop over the capacities in retrieveItems and Items what follows
--     it, with Left and Within on what is retrieved. Consumer is batch-queue.consumer.ts and its
--     base class, with Slots and Counters about it. Redis.Sets has the commands on sorted sets.
--   Provider: the adapters in ai-provider/providers. OpenAi is openai.provider.ts with what groq, gemini
--     and anthropic override, and Durations its parseDuration, with Last about it. Bedrock is
--     aws-bedrock.provider.ts, with what its API takes and gives; Messages is convertMessages, with
--     Pieces, Order and Merged about it, Tools convertTools and convertToolChoice, with Allowed, Stream
--     convertStream, with Joined, Failure handleError, Credentials createClient, with First, Answer
--     the answer that is no stream, with Resent, and Converse the whole of completion.
--   ApiKey: api-key/api-key.service.ts, its operations in Service, with Fresh and
--     Refines about its caches and Withdrawn about deleting a resource; Guard is api-key/api-key.guard.ts.
-- (Paths without a directory of their own are under packages/api/src.) Tests modules run the
-- definitions and apply the theorems to concrete data.
--
-- Conventions. What the code throws is the error of a Result. State is passed on: the keys of Redis,
-- what the repositories of the prioritization keep, and for the completion a world of the services
-- with what was recorded. Numbers are natural numbers without a bound, since the counters, tokens and
-- times of the code stay far below 2^53; where a difference may be negative it is an integer, or the
-- test is written as a sum. The percentages of the prioritization are numbers of JavaScript (Number, the
-- bits of a double), and its operators on them are a parameter of which nothing is assumed. An
-- optional field that is undefined or null is `none`. Every loop is a structural
-- recursion, but for the loop over the minutes of a window (Prioritization.Storage), which runs on fuel
-- since it need not end; two turns are enough for windows of at most a minute.
--
-- Parameters: the dates that date-fns and the local clock give (Calendar), Redis (RedisClient and
-- SortedSets), how numbers are printed and read (Numerals), what the repositories of the
-- prioritization keep (Repositories) and the arithmetic of numbers (Arithmetic), the engine of regular expressions, the services that the
-- completion calls (Services), and for the routing templates, JSON, floating-point numbers, the
-- order of texts (Engine) and random numbers; for the storage of the prioritization the texts of
-- minutes (Clock) and of allocations (AllocationTexts); for the adapters what they read and fetch
-- (Host) and the clients of AWS Bedrock (Api) and of OpenAI (OpenAiApi); and for the keys of the API
-- their hash and the functions of SQL (ApiKeyHost).
--
-- Transactions and replicas. The writes of API keys that run in the transaction of a caller give the
-- rows to write, and `commit` is the end of that transaction; the caches are cleared before it. The
-- reading and the writing connection to the database have one table: a replica that lags behind is not
-- modelled. In Batch.Machine the mark of an active resource is a command of its own, as in the code.
--
-- Not modelled: in the completion streams, the headers that it adds to a response, and the merge of
-- a resource with its overrides; of the batches the lock of a resource, streams of events, callbacks
-- and rows in tables; the lists of API keys; the services that query tables and time series; the list
-- of providers and their forms; authentication; logging, metrics and traces; the user interface. What
-- requests in parallel do to the counters is not modelled.
pub mod Common
pub mod Capacity
pub mod Entities
pub mod Prioritization
pub mod Redis
pub mod Http
pub mod Errors
pub mod Gate
pub mod Role
pub mod Completion
pub mod Routing
pub mod Batch
pub mod Provider
pub mod ApiKey
