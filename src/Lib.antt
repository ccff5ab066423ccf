-- ===== src/Lib.antt =====
-- GODEYE: the API server's own rules for billing, publishing and sign-in.
--
-- The program is a NestJS server over PostgreSQL (through Prisma) and Redis. Its services are
-- classes whose methods read and write rows; this library has one function for each modelled method.
-- A method that changes rows takes the tables and the time and returns the tables that it leaves,
-- with its result; a thrown exception is an error value beside the tables as they were at the throw.
-- A database transaction either writes everything or nothing, and is one step but for that of a
-- payment, which may overlap another. Every loop is structural recursion, so no definition runs on
-- fuel.
--
-- - Prelude: shared names, Boolean tests on numbers, results.
-- - Db: what the services rely on of a Prisma delegate, as an interface of operations and laws. Prisma
--   and the database are no part of the repository, so the tables are parameters everywhere;
--   Db/ListTable meets the laws with a list of rows, and the examples run on it.
-- - Billing: packages/shared/src/plans.ts and apps/api/src/billing. Access is
--   workspace-access.service.ts (decide, the cached state, startTrial and the sweep), TrialLock is
--   trial-lock.interceptor.ts, Checkout, Payment and Limits are parts of billing.module.ts (checkout,
--   its requests and the webhook; applyPayment, verifyPayment, handlePaystackEvent; effectivePlan,
--   usage, assertWithinLimit), and Reconciliation is reconciliation.service.ts. The interceptor asks
--   the access service, which a payment or a trial invalidates.
-- - Publishing: Content is apps/api/src/content/content.service.ts, Scheduling and Plans are
--   apps/api/src/scheduling/scheduling.service.ts. Calls has every modelled call of both as one step,
--   which any workspace may take in any order. schedule asks the plan limit, an argument here.
-- - Auth: apps/api/src/auth. Backoff is login-backoff.service.ts, Refresh the sessions of
--   auth.service.ts (createSession, refresh, logout, switchOrg), Reset is password-reset.service.ts and
--   Codes is backup-codes.service.ts. Login is the sign-in over all of these. Where the code relies on
--   a conditional update to settle a race, the update is a step of its own, so that another request may
--   come before it.
-- - Members: apps/api/src/members/members.service.ts with the ranks of
--   apps/api/src/common/roles.guard.ts, over the tables of Auth. The callers' roles are arguments.
-- - Guard: apps/api/src/common/membership.service.ts and roles.guard.ts, with what a role change of
--   Members means for it.
-- - Account: the rest of auth.service.ts, that is password, address, invitations and, in Factor, the
--   second factor. It calls Guard to retire tokens and Auth for codes and sessions.
-- - Registration: register of auth.service.ts, which opens rows in Auth and in Billing.
-- - Crypto: apps/api/src/common/crypto.service.ts, the envelope of stored credentials.
-- - Runs: the rows that stand for work of the engine, which Seo and Media write.
-- - Seo: apps/api/src/seo/seo.module.ts. Audits asks Requests.Egress before it starts an audit; Fixes is
--   the life of a fix, and Order their list.
-- - Products: apps/api/src/products/products.module.ts, which asks Requests.Egress too.
-- - Media: apps/api/src/media/media.service.ts. Brand is the brand kit, whose promise is Brand/Promise; the
--   content is that of Publishing.
-- - Webhooks: apps/api/src/webhooks/webhooks.controller.ts, the deliveries of Meta.
-- - Connections: apps/api/src/connections. State is oauth-state.service.ts; Channels and Callback are
--   connections.service.ts (upsertConnection, remove, the callbacks and the X flow) over the members of
--   Auth. The plan limit, the ciphers and the platforms' answers are arguments.
-- - Requests: apps/api/src/common. Throttle is throttler-storage.ts, whose counters live in Redis or in
--   the process; Egress is url-guard.ts.
-- - Locks: apps/api/src/common/leader-lock.ts as a step relation of replicas.
--
-- Times are milliseconds and ids, hashes and opaque texts are numbers, since the code only compares
-- them. SHA-256, argon2, random values, Paystack and the clock are arguments.
--
-- Not modelled: receipts, profiles, the origin guard and the platform clients; analytics, email,
-- realtime, configuration, logs and metrics, which are mostly input and output; the web application;
-- and the Python engine, which publishes the posts.
pub mod Account
pub mod Auth
pub mod Billing
pub mod Connections
pub mod Crypto
pub mod Db
pub mod Guard
pub mod Locks
pub mod Media
pub mod Members
pub mod Prelude
pub mod Products
pub mod Publishing
pub mod Registration
pub mod Requests
pub mod Runs
pub mod Seo
pub mod Webhooks
