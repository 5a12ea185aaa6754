-- ===== src/Lib.antt =====
-- Verification library of oyana-backend, a logistics backend on NestJS, Prisma and Paystack: the
-- wallet, the freight market, dispatch, shipments, notifications, roles and the onboarding of
-- drivers.
--
-- A client's wallet holds a balance in kobo. It is funded through Paystack (a checkout page or a
-- saved card), confirmed by the client or by a webhook, and paid out by bank transfers. Every
-- change of the balance is posted as a transaction in the same database transaction. Requests that
-- create something run under an idempotency key. Who may do so depends on the profile's roles and
-- on the onboarding of drivers.
--
-- A client creates a shipment at a price that is estimated from the distance. A marketplace
-- shipment gets bids from providers, of which the client awards one. A dispatch shipment is
-- offered to the providers that are near; one of them accepts, or makes a counter offer that the
-- client accepts. Either way the shipment is assigned to one provider, which reports its progress.
-- Everybody concerned is notified.
--
-- Files, with the code that each is about (paths from the repository's root):
--   Base            library names; integers (bigint), JavaScript's string functions, tables of rows
--                   (Base/Unique: tables with a unique column)
--   Value           JavaScript values (unknown, JSON), readString, toJsonValue: wallet.service.ts
--   Db              the tables of the database
--   Act             service methods as functions from a world to a result and a world, with Prisma's
--                   operations (Act/Keeps, Writes, Promises, Ends, Reads, Outcome: invariants and
--                   outcomes, one rule for each way to build a method)
--   Outside         what the services but the wallet take from outside
--   User            assertDriverOnboardingComplete: src/user/user.service.ts
--   Profile/Schema, Profile/Enums   prisma/schemas/profile.prisma, driver.prisma, src/graphql/enums.ts
--   Profile/Roles   src/auth/utils/roles.util.ts (Roles/Admin: proofs)
--   Profile/Onboarding  src/user/driver-onboarding.util.ts (Onboarding/Steps: proofs)
--   Provider        prisma/schemas/provider.prisma; who acts for which provider, of which the market
--                   place, dispatch and shipments have a copy each (Provider/Reads: proofs)
--   Notifications   src/notifications/notifications.service.ts (Push: devices and messages; Quiet,
--                   Returns: proofs)
--   MarketPlace     src/market-place/market-place.service.ts (Fair, Keeps, Awarding, Winner: the
--                   invariant of bids and awards; Award: what an award does; Final: the market
--                   without its tables)
--   Dispatch        src/dispatch/dispatch.service.ts: Respond (the driver's answers), Review (the
--                   shipper's), Progress, Offers (administration), Eligible, Broadcast and Sweep
--                   (who gets offers; Sweep/Batch: what one sweep takes up), Notices (Exclusive, Quiet, Keeps, Answers, Requests, Route,
--                   Office, Served: the invariant of offers and assignments)
--   Shipments       src/shipments/shipments.service.ts: Pricing, Create, Change, Carrier
--                   (Bounds: prices; Over: shipments that are over)
--   Wallet/Schema   prisma/schemas/wallet.prisma
--   Wallet/Paystack src/wallet/paystack.service.ts (Paystack/Status: how its answers are read)
--   Wallet/Account, Email, Card, Finalize, Funding, Withdrawal, Idempotency, Webhook
--                   src/wallet/wallet.service.ts, and src/wallet/wallet.controller.ts
--   Wallet/Ledger   what the tables promise together; its children prove that every method keeps it
--                   (Ledger/Named: what a transaction is about, and its reference)
--   Wallet/Once     two requests under one idempotency key
--   Parties, and Tests in each part   examples at concrete inputs
--
-- A method of the service is a function `Act A = World → Result A × World`. The world holds the
-- database, the number of questions put to the outside so far, the requests for money that went
-- out, and what was published to subscribers. An exception is a value of `Error`; `try_catch`,
-- `try_else` and `transaction` are `try` and `$transaction`: a transaction that throws leaves the
-- database as it was, anything else that throws leaves what it wrote. A table is the list of its
-- rows, newest first; `create` fails with P2002 where a unique column would repeat, `update` with
-- P2025 where there is no row, as Prisma documents. A helper of the source that stands inside a
-- method is a definition of its own, so that one TypeScript method is a few definitions, each
-- named after what it does.
--
-- What the wallet takes from outside is the record `Env`, a parameter: Paystack's answers, HMAC
-- and SHA-256, UUIDs, the clock, the parsing of a text as a bigint, the rounding of a bigint to a
-- number, configuration. Each answer may depend on how many questions went before, so nothing is
-- assumed of them, not even that ids differ: a repeated id is an error of `create`. No property
-- assumes anything about `Env` unless it says so. `Outside` is the same for the other services:
-- ids, the clock, Expo's push service, configuration, and the distances that the services compute
-- in floating point.
--
-- There is no fuel: every function is by structural recursion.
--
-- Not modelled: logging; createdAt and updatedAt (the order of a table stands for them); lost
-- connections; two requests interleaved within one method, but for two withdrawals in
-- Wallet/Withdrawal/Race (elsewhere requests run one after the other); a caught error inside a
-- Postgres transaction, which would abort that transaction; fractions in JSON numbers; case
-- mapping outside ASCII; `BigInt(amountMinor)` of a value that is a bigint already; the
-- conversions of rows to GraphQL types and the queries that only list rows; row locks, which order
-- transactions; the job queue; retries on database errors. The services for disputes, kyc,
-- operations, auth and addresses, and the user service but for assertDriverOnboardingComplete, are
-- not modelled.
pub mod Act
pub mod Parties
pub mod Base
pub mod Db
pub mod Dispatch
pub mod MarketPlace
pub mod Notifications
pub mod Outside
pub mod Profile
pub mod Provider
pub mod Shipments
pub mod User
pub mod Value
pub mod Wallet
