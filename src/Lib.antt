-- ===== src/Lib.antt =====
-- Verification library of the two services of gptshare: the account pool (allocation-service),
-- which gives shared accounts to the holders of card codes, and the account monitor
-- (internal/monitor), which polls the accounts and tells the pool when one dies.
--
-- Parts. A customer redeems a card with a bind ticket, which Verifier.Verify checks: redeemCard
-- chooses an account, takes one of its seats and inserts an allocation. Hourly,
-- ProcessReplacements closes what has expired, moves the cards of banned or ending accounts to
-- others, archives accounts that are empty and corrects the stored counts. Administrators add,
-- edit and retire accounts, extend and revoke cards, and use one card on another; users claim
-- cards that run, and the user center reads their events and states. The monitor polls in rounds
-- and by hand; its applyResult writes what a poll found and puts a message into its outbox, whose
-- consumer gives it to the pool's ApplyMonitorAccountEvent, directly or over HTTP. Alerts have a
-- consumer of their own.
--
-- Files.
--   Base, Base/Tests, Base/Lists: Booleans, tables as lists, and their lemmas.
--   Time, Time/Order: instants in nanoseconds, and the texts and SQLite functions that statements
--     compare them by.
--   Pool/Types, Tables: rows and shared statements (allocation-
--     service/internal/repository/repository.go, allocation-service/internal/models/models.go,
--     allocation-service/internal/store/migrations).
--   Pool/Candidate: selectCardCandidate (card_actions.go); Choice, Other, Fits, Chosen: what it
--     chooses, and its conditions and its order described one by one.
--   Pool/Seats, Redeem: cardTimeAfterDays, reserveAccountCapacity, redeemCard, consumeBindNonce,
--     insertEvent, backfillCardCode (repository.go, card_actions.go, user_center.go).
--   Pool/Redeem/Code: RedeemCodeWithBinding and existingRedeemByCodeHash; Again: a code entered
--     twice.
--   Pool/Claim: claimCard (user_center.go).
--   Pool/Sweep: expireDueCards, expireGraceAllocations, closeGraceAllocations and its callers.
--   Pool/Replace, Process: replaceOneAllocation, its savepoint, and ProcessReplacements.
--   Pool/Reconcile, Retire: reconcileAllocationCounts, reconcileAccountAvailability,
--     retireOfflineAccounts, archiveRetiredAccount.
--   Pool/Revoke, Extend: RevokeCard, ExtendCardWithMonitor, extendCardWithTx,
--     ensureRenewedAccount.
--   Pool/Leave: RetireAccount; Items, Loop, Sound: its list of seats, its loop, and both together.
--   Pool/CardAction: ApplyCardAction (card_actions.go); Sound, Replay, Again: the ledger,
--     previews, and calls that are sent again.
--   Pool/Admin: CreateAccount, UpsertSyncedAccount, SetDefaultAccountCapacity,
--     ApplyDefaultAccountCapacity; Update: UpdateAccount, UpdateAccountMonitorStatus; Capacity,
--     Sound: the settings and the ledger.
--   Pool/Query: captchas, query failures and PurgeExpiredBindNonces.
--   Pool/Message, Events: Event.Validate (accountsync) and ApplyMonitorAccountEvent
--     (account_events.go).
--   Pool/Ledger, Books: the invariant IsSound and that the operations keep it; Books/Placed: the
--     seats of a card that was moved.
--   Pool/Steps: the transactions as a step relation.
--   Ticket: Verify (allocation-service/internal/usercenter/ticket.go); Sound, Issue: what is
--     accepted, and tickets in the issued form; Nonces: NonceCleanupCutoff (service.go beside it).
--   UserCenter: ListRedemptionEvents and Events; Paging: its pages one after the other; Refs:
--     references to cards, and Digits: their round trip; Status: BoundEntitlements and Status, and
--     Shown: what they tell (user_center.go, and allocation-
--     service/internal/usercenter/service.go).
--   Delivery: the outbox consumer (internal/allocationsync/outbox.go); Queue, Drain, Tidy: its
--     table under deliverOne; Chain: the two sinks, with monitorAccountEventHandler (allocation-
--     service/internal/httpapi/router.go), in front of the pool.
--   Monitor/Types, Judge, Store: applyResult (internal/monitor/repository.go) as a verdict on the
--     row and the writes of the transaction, with EnqueueAccountTx
--     (internal/allocationsync/outbox.go).
--   Monitor/Verdicts, Sound: lemmas on verdicts, and the invariant of the accounts.
--   Monitor/Refresh, Poll, Credential: normalizeOAuthRefreshFailure, the retry loops of a poll,
--     and persistCredentialsCAS (internal/monitor/service.go).
--   Monitor/Rounds: loadDueAccounts and the counts of executeRun; Claims: the map of running
--     accounts.
--   Notify: ProcessOnce (internal/notify/consumer.go).
--   Limiter: internal/auth/limiter.go.
--   Examples: small tables and runs.
--
-- The model. Tables are lists of records with the newest row first, except the outbox, the alerts
-- and the accounts of a round, whose order the statements fix. A transaction is a function from
-- the database to a result, in which an error stands for the rollback. A statement UPDATE ...
-- WHERE is update_where, and a loop over the rows of a query is structural recursion. A loop of
-- attempts recurses on the attempts that are left, the source's own bound, over a function that
-- gives what each attempt answers; the consumers take the times of their ticks as a list. Rounds
-- that run at the same time are a step relation, one step for each section under the service's
-- lock. Instants, ids and counts are natural numbers; a difference of instants stops at 0 where
-- the source clamps it, and an instant is taken to be after 1970. Texts and digests are numbers
-- that identify them, and lists of bytes in tickets. A text that parses as JSON is what it parses
-- to. Names that modules share, as Account, are told apart by their modules.
--
-- Not modelled: failures of the database itself, cancellation, audits that are written after the
-- commit, the secrets and their encryption, the digests, the HMAC, the decoder and the JSON parser
-- of tickets (parameters), the client of the upstream service, routing, rendering and
-- configuration; of the pool, the services over the repository, views and metrics; of the monitor,
-- the refresh sweep, reviews and the import of accounts. The order in which retired and corrected
-- accounts are audited is that of the table, and the error of Validate in EnqueueAccountTx, the
-- CHECKs and the index on rows in grace are left out. RetireAccount is treated by itself and is no
-- step of Pool/Steps, as its theorem asks that every allocation has a card.
pub mod Base
pub mod Time
pub mod Pool
pub mod Monitor
pub mod Limiter
pub mod Ticket
pub mod Delivery
pub mod Notify
pub mod UserCenter
pub mod Examples
