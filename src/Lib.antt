-- ===== src/Lib.antt =====
-- The backend of the geocoding platform: the Convex functions that keep accounts, API keys,
-- payments and usage, and that decide every request of the gateway.
--
-- The program. A request reaches the gateway with a key or a playground token. The gateway calls
-- `authorize`, one transaction that checks the credential, the key, its owner, the owner's access
-- and the key's scope, then counts the request against layered rate limits, then charges quotas and
-- the free allowance. Developers create, revoke and rotate keys, buy plans and activate the free
-- tier; operators revoke keys and lock accounts. All of them read and write the same tables.
--
-- Which file models which part:
--   Convex: `ctx.db`. `Convex.Database` is the interface, with the documented behaviour of
--     insert, patch, delete, get and of an index query as its laws; it is an instance argument of
--     everything that reads or writes. `Convex.Memory` is an implementation of it.
--   Schema: the tables of apps/convex/convex/schema.ts, as the fields of `State`.
--   Plans, Env, Endpoints, Time, Audit: plans.ts, env.ts, endpoints.ts, time.ts and audit.ts of
--     apps/convex/convex/lib; Endpoints also has `cleanEndpoints` of lib/keys.ts, and Time
--     `quotaPeriod` of gateway.ts, which Time.Calendar sets against the calendar.
--   Gateway: apps/convex/convex/gateway.ts. Gateway.RateLimit has `clampLimit`, `hit`, `hitWindow`
--     and `combine`; Gateway.Quota `consumeCustomerQuotas`; Gateway.Credential the checks of
--     `authorize` that come before counting; Gateway.Authorize the rest and the whole handler;
--     Gateway.Describe `describe`; Gateway.Demo `authorizeDemo`; Gateway.Usage `recordUsage`.
--   Http: the routes of the gateway in http.ts, which call these, and the webhook of the payment
--     provider. Json has the values that they read. Crypto: lib/crypto.ts.
--   Session, Accounts: lib/session.ts, and `viewer` and `updateProfile` of users.ts.
--     Accounts.Passwords: auth.ts and lib/commonPasswords.ts.
--   Keys: the mutations of apps/convex/convex/apiKeys.ts; Keys.Actions and Keys.Listing have the
--     functions that the dashboard calls, Keys.Format and Keys.Expiry lib/keys.ts.
--     Keys.Lifetime follows an expiry into `authorize`.
--   Admin: admin.ts. Reports: usage.ts.
--   Platform: the account and the keys of the platform, of platform.ts; Platform.Setup its actions.
--   Maintenance: `prune` of maintenance.ts.
--   Payments: payments.ts, with the answers of the payment provider as arguments; Payments.Actions has
--     what developers and the cron job call. Wire: the signature of a webhook, of lib/wire.ts.
--   Prelude, Result, Number, Text, Bucket: shared notation, results, numbers, text and buckets.
--   Examples: a small deployment on which the theorems are applied.
--
-- How the code is read:
--   A mutation is a function from the arguments, `now` (the `Date.now()` of its transaction) and
--   the state to a result with the next state. It runs alone and is rolled back when it throws, as
--   Convex runs it, so an error carries no state.
--   An id is a number, and a table gives the next one. A time is a whole number of milliseconds.
--   A rate limit is a double: Number counts in units of the least positive double, 2 ^ -1074, so
--   comparisons are exact; counters are whole.
--   A bucket is the list of the parts that the source joins by ":", so that different parts give
--   different buckets. An id has no ":" in it, nor has a hash; the text of an endpoint that comes
--   last in a bucket may have.
--   A text is a sequence of characters, with no lone half of a surrogate pair: a slice leaves out a
--   character that JavaScript would cut in half.
--   `.unique()` throws when it finds two rows.
--   The HMAC and the variables of the deployment are fields of `Env`, whatever they are.
--   An action reads in one transaction and writes in a later one, so it has a state for each. An action
--     that writes in several keeps what was written before it throws.
--   What JavaScript's `JSON.parse` and `Number` give is a field of `Javascript`, what the text of an
--   id is a field of `Ids`, and the bytes of `crypto.getRandomValues` are an argument.
--   The batches of the usage route run on fuel, the number of entries; each batch takes one at least.
--   `year_from` runs on fuel, one more than the number of the day, which is enough since each year
--   takes at least a day.
--
-- Not modelled: the user interface (apps/web), the Python service (apps/api), the TypeScript client
-- (packages/api-client), the sessions and the stored passwords of the auth library, and the HTTP requests to
-- the payment provider.
pub mod Prelude
pub mod Result
pub mod Convex
pub mod Number
pub mod Text
pub mod Crypto
pub mod Endpoints
pub mod Bucket
pub mod Plans
pub mod Env
pub mod Time
pub mod Schema
pub mod Audit
pub mod Gateway
pub mod Payments
pub mod Keys
pub mod Admin
pub mod Wire
pub mod Session
pub mod Accounts
pub mod Reports
pub mod Json
pub mod Http
pub mod Maintenance
pub mod Platform
pub mod Examples
