-- ===== src/Lib.antt =====
-- Aizorix Freelancer: Go services over PostgreSQL, their money path, logins and work records.
--
-- A client pays through Stripe (the payment service), funds an escrow account, reserves its cents
-- for milestones and releases or refunds them (the escrow service); the contract service creates
-- contracts from proposals and moves contracts and milestones through their states. Freelancers
-- submit proposals (the proposal service) and record hours (the timetracking service); the auth
-- service keeps logins and tokens. A method runs its statements in a database transaction, and
-- enqueues its events in the same transaction (the outbox), which the relay publishes for the
-- consumers.
--
-- Base holds what all parts share. Base/Tx.antt is a transaction: a function of the tables that
-- returns a value and new tables, or an error, upon which `transact` keeps the old tables
-- (`Begin`, `defer tx.Rollback`, `Commit`). Base/Table.antt has the tables, as lists of rows in the
-- order of insertion, and the lemmas on queries and updates by key. Base/Int.antt has signed
-- integers for int64 cents: a balance beyond BIGINT is refused by the table, as in the database, and
-- `wrap_int64` is the wrap-around where a sum of a request's amounts can leave int64.
--
-- Escrow is services/escrow/internal. Tables and Store are store/store.go (a row as a record, a
-- query as a transaction step, the constraints of db/migrations written into the inserts), Service
-- is service/service.go, a function per method: FundEscrow is `fund_escrow`, AllocateToMilestone
-- `allocate_to_milestone`, ReleaseMilestone `release_milestone`, ReleaseHours `release_hours`,
-- RefundEscrow `refund_escrow`. Effects lists the changes that the methods make to the tables;
-- Inversion and Refine bring the methods under it; Valid, Ledger, Milestones and Once are about
-- its changes; Requests runs any sequence of requests from the empty tables. The database has one
-- table `transactions` for Escrow and Payment; each model keeps the postings of its own service.
--
-- Contract is services/contract/internal in the same way: Terms is deriveContractTerms, Store and
-- Service are store/store.go and service/service.go. History replays the rows of contract_events,
-- Milestones is the state machine of a milestone, Refine and Lifecycle relate the methods to both.
-- The answer of the proposal service (proposallookup/client.go) is an argument, and so is which
-- users there are, for the foreign keys of a dispute.
--
-- Payment is services/payment/internal in the same way: CreatePaymentIntent, ConfirmPayment and
-- HandleWebhook from the parsed body on, with what Stripe answers as an argument. Changes is what
-- its methods do to the tables, Books the ledger, Once what happens once. The signature of a webhook
-- and the parser of its body are not modelled.
--
-- Timetracking is services/timetracking/internal: Tables, Store, Reasons and Service are its
-- store, its service and the slices' checks; Slices, Billing, Retry and Owners say what a batch, the
-- timesheets, a second upload and the session's owner come to. The contract service and the
-- algorithm that scores a slice (it computes in floats) are arguments; ListSessions is left out.
--
-- Auth is services/auth/internal/store and service: login with its lockout, registration, refresh
-- tokens and logout. Password hashing, token hashing and signing are arguments. Changes, Issue,
-- Rotate, Rotation and Chains are the rotation of tokens, Lockout the failed logins.
--
-- Relay is services/pkg/outbox/outbox.go with the outbox table, Consumer the processing of a message
-- in services/pkg/kafka/consumer.go; Consumer/Wire.antt joins them over the headers of a message.
-- What may fail from outside (a publish, a dead letter, a row locked by another drain, a handler, a
-- cancellation) is an argument at each step. The loop of fetches and the headers of a
-- dead-lettered message are not modelled.
--
-- Proposal is services/proposal/internal/store and service. Contracts joins it with Contract: the
-- proposal that CreateFromProposal reads is the answer of the proposal service's tables.
--
-- All loops are structural recursions, so there is no fuel. Requests run one after the other:
-- the methods lock the rows they change, and the interleavings of statements that the locks leave
-- are not modelled. Ids that the database or the service draws are arguments, and may repeat: the
-- primary keys refuse them. Timestamps that the code never reads, the lengths of text columns and
-- the other foreign keys to tables of services that are not modelled are left out. The HTTP
-- handlers, the gateway, the tools, the desktop tracker and the services not named above are not
-- modelled.
pub mod Base
pub mod Escrow
pub mod Contract
pub mod Payment
pub mod Timetracking
pub mod Auth
pub mod Relay
pub mod Consumer
pub mod Proposal
