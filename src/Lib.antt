-- ===== src/Lib.antt =====
-- SiteFoundry: a model of the services of the panel's API (apps/api/src) and the theorems that make
-- them correct.
--
-- The panel deploys landing pages to customers' servers. A site passes a compliance gate
-- (sites/preflight.ts); the installer then takes it through a fixed pipeline of steps over SSH
-- (installer/installer.service.ts, installer/nginx.ts), rolls it back, rebuilds it and renews its
-- certificate; a daily sweep classifies certificates (ssl/ssl-monitor.service.ts). Deployed sites
-- call public endpoints, each behind a limiter of its own: product search with a cache and a monthly
-- budget (discovery/discovery.service.ts, discovery/normalize.ts), and the capture of leads
-- (leads/leads.service.ts). Users of a tenant are managed by its admins
-- (settings/users.controller.ts). The owner of a deployed site may edit its texts from its own pages
-- (content/content.service.ts). Servers are registered, tested and provisioned over SSH with pinned
-- host keys (servers/servers.service.ts, servers/ssh.service.ts), and their secrets are kept by a
-- vault (vault/vault.service.ts). Requests are admitted by signed tokens (auth/jwt.guard.ts).
--
-- The files, by what they model:
--   Preflight    runPreflight: Schema is the walk over a template's schema, Gate and Trust read the
--                errors back as facts on the parameters, Compliance puts them together.
--   Installer    State: the rows, the events and the outside of one site; Commands: the texts of the
--                commands and of the nginx vhost; Steps: the steps of the pipeline; Pipeline: run and
--                execute; Entry: rollback, rebuildFiles and renewSsl. Frame says what a step leaves alone;
--                Rounds, Outcome and Execute follow the loop; Running, Rollback and Rebuild
--                hold the properties of the entry points.
--   Ssl          classifySsl, classifyMany, alertsFor and sweep.
--   RateLimiter  the sliding-window limiter that four controllers copy, with their limits as data:
--                Window, Keys and Bounds.
--   Users        create, update and remove of UsersController: Admins and Isolation.
--   Leads        Fields: sanitizeFields and pickUtm; Csv: the export, Csv.Parse: a reader,
--                Csv.Export: the two together; Capture: the service over its tables; Webhook: the
--                delivery with its retry; Bounds, Sound: what is stored.
--   Discovery    Product: the products of an API answer; Search: search and publicSearch; Featured:
--                the home page; Cap, Again, Visitors and Distinct: their properties.
--   Clients      list, get, create, update and remove of ClientsService: Attached.
--   Content      sanitizeEdits and setPath (Edits, Path), the site key and saveEdits (Service), the
--                handlers (Save): Protected, Authorised and Frame are about what a save changes.
--   Servers      Ssh: connect and its host verifier; Service: the rows; Connection: create and
--                testConnection; Pinning: repinHostKey; Provision: provisionBase with Steps, and the
--                handler that streams it; HostKey, Repin, Transcript, Ending, Provisioned and Stream:
--                their properties.
--   Auth         login, refresh, changePassword and the guard: Tokens and Passwords.
--   Vault        the envelope encryption: Envelope.  AppConfig: the encrypted values by key: Kept.
--   EventStream  apiStream of the dashboard (apps/dashboard/src/lib/api.ts): Loop, Pieces, Events.
--   Track        the handler of public/track with recordVisit: Sound.
--   AutoRebuild  the nightly rebuild of live sites: Sweep; Fleet: the same over all sites with the
--                installer's rebuildFiles.
--   Catalog      the product pages of a built site (templates/stock/src/lib/catalog.js): Slug and
--                Paths, Pages, Related.
--   Sites        create, update, archive and validate of SitesService (sites/sites.service.ts): Owned.
--   Effects      actions on a state that may throw, with catch, finally and transactions as the
--                source writes them; Keeps and Cases have rules for invariants.
--   Json, Text, Web, Prelude  JSON values, texts as UTF-16 code units, URLs, lists and numbers.
--
-- How state is modelled: an operation is a function from the state to a result (a value or an
-- exception) and the state it leaves, so that what was written before an exception stays written. The
-- rows that a tenant sees under row-level security are the rows with its tenant id; withTenant is a
-- transaction. Calls of the database are taken to succeed, and one operation runs at a time: what two
-- requests may do to each other between an await and the next is not modelled, apart from the set of
-- running installs. The SSH session, the build worker, HTTP requests, the clock, hashes, the URL
-- parser of the platform and the log sanitiser are parameters, fields of a record of services or
-- arguments of a section, and may answer anything or throw at any call.
--
-- Bounds: there is fuel in three places. The digits of a number have the number plus one; the digits
-- of a hash in base 36 have 7, which is enough below 2^32; the loop that cuts events off a buffer has
-- the length of the buffer plus one. All other loops are structural. JSON numbers are whole and not negative. Lower and upper case are those of
-- ASCII. The order that a JavaScript engine gives to object keys that are numbers, and the properties
-- that every object inherits, are not modelled.
--
-- Not modelled: the analytics queries, the settings and templates services, the install
-- controller, the self-update, the job queue, the HTTP side of server-sent events, the build worker,
-- the execution of commands and the upload of files over SSH, the seeds and scripts, and the pages of
-- the dashboard and of the site templates.
mod Prelude
pub mod AppConfig
pub mod Auth
pub mod AutoRebuild
pub mod Catalog
pub mod Clients
pub mod Content
pub mod Discovery
pub mod Effects
pub mod EventStream
pub mod Installer
pub mod Json
pub mod Leads
pub mod Preflight
pub mod RateLimiter
pub mod Servers
pub mod Sites
pub mod Ssl
pub mod Text
pub mod Track
pub mod Users
pub mod Vault
pub mod Web
