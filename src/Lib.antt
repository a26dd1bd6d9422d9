-- ===== src/Lib.antt =====
-- FUZOJ is an online judge: services that take submissions, judge them in a sandbox, publish their
-- statuses and keep contest leaderboards. This library models six parts of it that the others rely
-- on.
--
-- Kq: internal/common/mq/weighted_kq/weighted_kq.go, the weighted Kafka queue by which the judge
-- service consumes its topics. Weights (buildTopicWeights, defaultWeights), Alloc (allocByWeight),
-- Confs (BuildWeightedKqConfs), Schedule (buildDispatchSchedule), Policy
-- (NewWeightedKqQueuesWithPolicy) and Dispatch (sharedDispatcher). The dispatcher's goroutines are
-- one state and a step relation: a step is one send or receive, or a whole scan of nextTask with
-- its several receives, together with the counter updates beside it, and `Reach` is any
-- interleaving. newSharedDispatcher's caller never passes a retry cap of 0, for which the model,
-- as the code, has no limit. A blocked send or receive is a step that is not enabled. A scan has
-- as many rounds as the schedule has slots, as in the source.
--
-- Rank: services/rank_service/internal/repository/leaderboard_repository.go and
-- services/rank_service/internal/pmodel/event.go. Event is what Redis holds for a contest, Script
-- the Lua script rankApplyScript that Redis runs as one step, Filter SortAndFilterRankUpdates, and
-- Apply ApplyUpdates, RestoreSnapshotEntries and FinalizeSnapshotMeta, which call the two. Batcher
-- is UpdateBatcher (services/rank_service/internal/consumer/update_batcher.go), its goroutine and
-- its callers as steps on one state. The script's inner loop runs on fuel, the size of the pending
-- set: each round takes an id out of it. Result ids are numbers below 10^14, which Lua's tostring
-- writes exactly.
--
-- Judge: services/judge_service/internal/sandbox. Request (api.go, validateJudgeRequest), Verdict
-- (result/result.go, aggregateVerdict), Scoring (prepareSubtasks, updateSubtaskState,
-- computeTotalScore) and Worker (Worker.Execute). The runner, the repositories of languages and
-- profiles, and the file system are an environment that answers each call, errors included.
--
-- Submit: pkg/submit. Payload (statuswriter/status.go, statusutil), Monotonic (statusmonotonic),
-- Cache (statuscache), Flow (statusflow, statuspubsub), Writer (statuswriter/writer.go) and
-- Repository (statusrepo), which answers readers from the cache and the database. The judge
-- service reports a status through Flow, which reads the current one through Cache, asks
-- Monotonic, and writes and publishes the new one. Final statuses go to the database through
-- Writer. Which calls of Redis and of the database fail is given for each call; JSON is a
-- parameter, and what is assumed of it is stated as `IsReadable` of the payloads concerned.
--
-- Gateway: services/gateway_service/internal/repository/lru_cache.go (Lru), the cache of bans and
-- revoked tokens, Bans (repository/ban_cache.go and token_blacklist.go), which ask it before
-- Redis, and Access, who passes the gateway (service/auth_service.go and middleware/auth.go). The
-- JWT library, SHA-256 and the answers of Redis are parameters.
--
-- Contest: the contest service's counting of results. Score (pkg/contest/score/icpc.go),
-- Eligibility (pkg/contest/eligibility/eligibility.go) and Final
-- (services/contest_service/internal/consumer/judge_status_final_consumer.go with the tables of
-- services/contest_service/internal/repository): the transaction in which a final status becomes a
-- row of the member's problem, a summary and a rank update in the outbox; Final/Handle has the
-- consumer round it, with the idempotency key and the retries. Which calls fail is given for each
-- attempt. Handle takes the messages one after another, with the transaction as one step, and
-- idempotency keys do not expire. The consumer's processors work at the same time, so
-- Final/Handlers has the steps of handlers on those keys interleaved, and Final/Race the
-- transactions of one contest: a transaction's reads are one step, at InnoDB's default isolation,
-- and its writes, whose rows stay locked until the commit, another one. Counts and penalties are
-- unbounded numbers, but SortScore wraps around as int64 does. Outbox has the table of updates
-- (internal/repository/rank_outbox_repository.go), Outbox/Lease its lock table, and Outbox/Relay
-- the relay that sends it to Kafka (internal/consumer/rank_outbox_relay.go); Outbox/Steps
-- interleaves relays, enqueuing, requeuing and cleaning statement by statement, and Outbox/Drain
-- runs processContest on fuel, for which the number of rows that are not sent is enough. What an
-- answer of Kafka says of the messages is acknowledged_by, apart from what the relay makes of it.
-- The name under which the database reports a duplicate key is a parameter.
--
-- Prelude holds what the parts share: lists and integers over native numbers, association lists,
-- text with Go's TrimSpace and ToLower on ASCII, and stable sorting. Examples runs the models at
-- concrete inputs.
--
-- Not modelled: the sandbox's processes and cgroups, SQL other than the statements of Writer and
-- of the rank outbox, HTTP handling, the relay's outer loop and its Redis lock, Kafka itself, the
-- metrics goroutine and the stop of the dispatcher, expiry of entries in Redis, and the other
-- services. Times, versions and ids that the code compares only are natural numbers; the rounding
-- of DATETIME columns is left out. ApplySummary's read, test and write of a status are one step,
-- so updaters of one submission that overlap are not covered. Rows of the outbox get their ids in
-- the order in which they are committed.
pub mod Prelude
pub mod Kq
pub mod Rank
pub mod Judge
pub mod Submit
pub mod Gateway
pub mod Contest
pub mod Examples
