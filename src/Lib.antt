-- ===== src/Lib.antt =====
-- Infra Billing: a panel that collects the services, balances and payments of hosting providers,
-- syncs them from the providers' APIs, converts their costs by daily exchange rates, and sends
-- alerts before a charge is missed. One administrator signs in by password, passkey or Telegram.
--
-- The modules and the code they are about, below apps/backend/src:
--   Base           lists, texts, maps, results and tests that all modules use
--   Decimal        the interface of decimal.js
--   Money          common/money.ts, common/overdue.ts, common/billing-severity.ts
--   Runway         common/runway.ts
--   Spend          common/spend.ts: Data (the records, summarize), Currency, Charges, Snapshots and
--                  Account (accountSpend)
--   Rates          currency/historical-rates.ts (Archive) and currency/currency.service.ts (Latest)
--   Auth           auth/auth-config.service.ts (Config, its guard in Lockout), auth/webauthn.service.ts
--                  (Signin),
--                  auth/challenge.store.ts (Challenge), auth/auth.guard.ts and verifyApiToken of
--                  auth/auth.service.ts (Guard), its sessions with getSessionSecret of
--                  auth/auth-config.service.ts (Session)
--   Sync           sync/sync.service.ts: Tables and Services (upsertServices), Run (withRetry,
--                  syncAccount), Payments (upsertPayments), Batch (syncProvider, syncAll), with the
--                  lemmas in Kept, Rounds and Calls
--   Services       services/account-owner.ts (Owner), create and update of services/services.service.ts
--                  (Edits, Update), and what a sync makes of an edit (Baseline, Resync)
--   Projects       projects/projects.service.ts
--   Accounts       labelTaken of providers/provider-rules.ts, providers/provider-accounts.service.ts
--                  and addAccount of providers/providers.service.ts; Merging has the rest of
--                  provider-rules.ts, the merge of two providers
--   Crypto         crypto/crypto.service.ts, with its payload in Payload
--   Credentials    providers/provider-credentials.service.ts: Stored (the decoders, reveal), Build
--                  (buildCredentials), Hints, and Urls with the base URLs of connectors/aeza/aeza.types.ts
--                  and connectors/vdsina/vdsina.types.ts
--   Analytics      analytics/analytics.service.ts: Costs (the monthly totals, what was spent), Due
--                  (upcoming and overdue charges), Billings (coverage, top-ups), Runways, Forecast
--   Notifications  notifications/quiet-hours.ts (Quiet), notifications/notifications.service.ts
--                  (Alerts) and notifications/messages.ts (Messages)
--   Tests          the theorems at concrete data
--
-- How the parts interact: a sync asks a connector for the account, the services and the ledger,
-- and writes the services by upsertServices; analytics reads the tables, converts by the rates
-- and rates each charge by Money; the notifications read that summary. The credentials of an
-- account are JSON that Crypto encrypts. The guard stands before every route.
--
-- Representation. An instant is the milliseconds since 1970, a calendar day the days since 1970,
-- both natural numbers. A text is the list of its UTF-16 code units. A map that keeps insertion
-- order is an association list. A function that throws returns a result; `null` and `undefined`
-- are `none`. State is passed and returned: the sign-in settings are a row and a number of
-- passkeys, the services a table behind an interface. A sync of an account is the list of the
-- calls that it makes on the repositories, in order, and how it ends.
--
-- Parameters, because their code is not in the repository: decimal.js (`Decimal`, without laws),
-- the database's tables (`ServiceTable`, `PaymentTable` and `NotificationLog`, whose laws state
-- what findUnique, findFirst, create, update, updateMany and upsert do), the connectors' answers,
-- AES-GCM, UTF-8, JSON, hashing, the session token, lower case, the local time of a zone, dayjs,
-- the parser of URLs, Telegram.
--
-- Bounds. The binary search of an archive runs on as many rounds as the archive has days, more
-- than it needs, since each round removes a day at least. A fetch is tried twice. The search for
-- a free label of a merged account has one round more than there are labels, and the text of a
-- number is written with as much fuel as the number. The two loops of a projection run 5000
-- rounds, as in the code. All other loops are by recursion on a list or on the number of days. A
-- window of days that starts before 1970 is outside the model, and so are calls of the database
-- that fail. So is the reading of stored credentials whose text is the JSON `null`, which throws:
-- the decoders stand for the code on every other text.
--
-- Not modelled: the connectors, the repositories, controllers, schemas, the MCP server and the
-- frontend, which are input and output or glue; the Telegram sign-in and the timers.
pub mod Base
pub mod Decimal
pub mod Money
pub mod Crypto
pub mod Credentials
pub mod Analytics
pub mod Runway
pub mod Spend
pub mod Rates
pub mod Auth
pub mod Sync
pub mod Services
pub mod Projects
pub mod Accounts
pub mod Notifications
pub mod Tests
