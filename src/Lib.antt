-- ===== src/Lib.antt =====
-- The family inventory's backend: homes keep items with expiry dates, and their members are told
-- when an item expires.
--
-- Parts and how they interact. The expiry job registers an alert per item, type and day and gives
-- each alert's event to a broker through an outbox table. A worker consumes the events, ingests each
-- one into an event row and a delivery row per subscription, claims the deliveries with a lease,
-- sends them through their channels and records what came of each. A sweeper repeats the last steps
-- for deliveries that failed or whose lease ran out, and publishes outbox rows that were not sent.
-- The alerts are about the items of the homes, which owners add, change and delete; an item has a
-- category of its home and a product of the shared catalog. Members subscribe to topics and read their
-- in-app notifications in an inbox. Accounts are registered, activated by a link, logged in to and
-- reset, and the links are sent through the same outbox; accounts that are never activated are deleted.
--
-- Files, and the code they model (paths from the repository's root):
--   Prelude            names passed on from the libraries, tests, lists
--   Prelude/Table      a database table as a list of rows with a key; UPDATE .. WHERE, and the
--                      claim of a subquery with ORDER BY, LIMIT and SKIP LOCKED
--   Notifications      app/apis/notifications
--     Types, Errors, Headers, Result
--                      types.py, exceptions.py, message headers as dicts, calls that may raise
--     Delivery         models.py (NotificationDelivery); worker/handlers.py: claim, finalize
--       Backoff, Send  _next_retry_at; send_claimed_deliveries
--       Free, Claims, Settles, Round, Lease, Reach
--                      lemmas on one claim, one finalization, one round, and every interleaving
--     Outbox           models.py (NotificationOutbox); repository/outbox_repository.py
--       Sweep          worker/sweeper.py: sweep_outbox_once
--       Claims, Ensure, Published, Runs
--                      lemmas on one claim, ensure, one sweep, and every interleaving
--     Subscription     repository/subscription_repository.py
--       Service        services/subscription.py (Own, Unique, Runs, Switch: whose rows change,
--                      unique targets, runs of requests, switching off)
--     Inbox            services/inbox.py, worker/channels.py (Stored, Reading)
--     Ingest           services/ingest.py, repository/event_repository.py
--       Upsert, Clash, Replay
--                      the inserts with their conflict clauses; duplicate targets; redelivery
--     Worker           worker/handlers.py: prepare_event_deliveries (Prepare); worker/consumer.py:
--                      on_message (Message, with Queue for its data, Disposition, Retries,
--                      Trail);
--                      worker/sweeper.py: sweep_once (Sweep)
--   Inventory          app/apis/inventory
--     Stock            services/service.py, schema.py, repository.py: the items (Listing, Consistent,
--                      Kept, Requests, Stays, Added, Access, Listed), and the page of
--                      homes/settings.py (Page)
--     Alerts           models.py, repository.py: the alerts (Due, Daily, Marks)
--     Expiry           events.py, services/expiry_service.py (Published)
--   Homes              app/apis/homes, app/apis/homeuser
--     Members          homes/service.py (create, delete), homeuser/service.py, repository.py, models.py
--                      (Unique: lookups by user and home; Roles: who may change what)
--     Settings         homes/settings.py: the name and the members of a home (Owners)
--     Listing          homes with their members: homes/service.py, repository.py (Grouped,
--                      Joined, Owned)
--     Members/Guards   what holds after a call whose guards may raise
--   Users              app/apis/users: models.py, repository.py; app/iam: token_service.py
--     Activation, Auth, Cleanup
--                      user_service.py; auth_service.py, app/iam/dependencies.py and
--                      websocket_auth.py; app/jobs/user_cleanup_job.py
--     Requests, Steps  the requests one after another; what each can do to the table
--     Unique, Life, Active, Links, Refused, Reset, Quiet, Kept
--                      unique columns; the life of an account; what an active user keeps; links from
--                      registration to login; refused links; password resets; requests that change
--                      nothing; cleanup and links
--   Products           app/apis/product (Barcodes: one product per barcode)
--     Catalog          app/integrations/product_catalog/open_food_facts.py (Images, Names, Trusted, Justified:
--                      what an answer, and the lookup that asks for it, rests on)
--   Households         app/apis/household_categories, and the categories of homes/settings.py
--   Jobs/Expiry        app/jobs/inventory_expiry_job.py (Drained)
--   Core/Pagination    app/core/database/pagination.py
--   Tests              the theorems at concrete rows
--
-- Conventions. An id is a number, since ids are compared and, as UUIDs, ordered; a time is a number
-- of seconds, a day a number of days. A table is the list of its rows, and a statement a function on
-- it; transactions are taken one after the other, in the order in which they commit, and rows that
-- SKIP LOCKED passes over are a parameter. A statement that fails leaves the tables as they were,
-- since the caller's transaction is rolled back. The column updated_at decides nothing and is
-- left out. A JSON value is kept by its truth and its text, which is what the code reads of it. The only
-- fuel is the code's own: the expiry job stops after MAX_BATCHES = 100 batches, which is enough if
-- the alerts of a type have fewer than 100 attempts left; every other loop runs over a list.
--
-- Parameters, for code that is not in the repository: the channels' senders and the broker, which
-- return or raise; str, int and JSON parsing of Python; UUID parsing, uuid4 and uuid5; the clock; Redis,
-- JWTs, SHA-256, passlib and the JSON of a user as records with what they promise; the HTTP exchange
-- with the product catalog; the match of ILIKE and the order of names in the database. A
-- password is taken to have no NUL character, for which passlib raises.
--
-- Not modelled: the routes, connections, logging and metrics (I/O); the listing of all homes for
-- administrators; the realtime channel; the rendering of mails; migrations; the frontend and the
-- command line.
pub mod Prelude
pub mod Notifications
pub mod Inventory
pub mod Homes
pub mod Core
pub mod Users
pub mod Products
pub mod Households
pub mod Jobs
pub mod Tests
