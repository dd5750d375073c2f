-- ===== src/Lib.antt =====
-- nass (cmd/nass, internal) is a home server that installs web apps and puts one login before
-- them. A reverse proxy routes each host to an app or to the portal; the portal keeps the accounts
-- and their sessions; an OIDC provider lets the apps log their users in.
--
-- The parts and their modules:
--   Db        internal/db: the tables of internal/db/migrations as lists of rows. Db.Monad is the code
--             that talks to them: M A takes a World (the database, the clock, the random source, the
--             cookies of the response, and which calls fail) to a result or an error and the World
--             after it. Every call of the database consults World.fault, so a theorem holds for each
--             pattern of failures; with_tx undoes a transaction that is not committed. Db.Ensures has
--             one rule for each way to build such code. The constraints of the tables are checks of
--             the statement that they may refuse.
--   Throttle  internal/auth/throttle.go: LoginThrottle as a record, its map as an association list.
--             Throttle.History compares it with the log of the calls, Throttle.Calls.
--   Users     internal/auth/users.go: Store. bcrypt is a parameter, of which only this is used: a hash
--             that it has generated accepts the password.
--   Sessions  internal/portal/session.go: SessionStore. Lookup is called find here.
--   Oidc      internal/auth/oidc: Oidc.Requests is authrequest.go, Oidc.Tokens tokens.go, Oidc.Storage and
--             Oidc.Userinfo storage.go, Oidc.Clients clients.go. Columns of JSON hold the lists that they
--             encode. Oidc.Login is login.go. Subjects are decimal texts, read and written as strconv does (Common.Decimal).
--   Proxy     internal/proxy: Proxy is proxy.go, Proxy.Manager apps.go and manager.go, Proxy.Cookies
--             stripCookie of reverse.go. A handler is data: the
--             options of a reverse proxy, a gated handler, or another by its name.
--   Portal    internal/portal: Portal.Gate is gate.go, Portal.Login login.go, Portal.Navigation safeNext of
--             portal.go, Portal.Administration the handlers of the accounts in admin.go,
--             Portal.Actions those of the apps, Portal.Jobs their jobs; Portal.Dashboard is dashboard.go and
--             getAdmin. A handler of Portal.Actions ends with a page and perhaps a job, which is a
--             computation on the host that goes on after it.
--   Ports     internal/apps/ports.go.
--   Host      what the program asks of the system: files and commands. H A takes a Host to a result or an
--             error (Trouble) and the Host after it; each call is kept in Host.calls, newest first, and
--             answered by Host.reply, so a theorem holds for all answers. Host.Meets has its rules.
--   Orchestrator  internal/orchestrator/orchestrator.go, whose resolved paths are those of Common.Paths.
--   Apps      internal/apps: Apps is app.go with the registry, Apps.Install and Apps.Waiting install.go,
--             Apps.Uninstall uninstall.go. Hooks are arbitrary functions on the host. Apps.Jellyfin and
--             Apps.Qbittorrent are two of the apps.
--   Config    internal/config/config.go. Cli is internal/cli: the commands on apps in app.go and install.go,
--             and the hosts in serve.go.
--
-- The clock stands still within one call. Numbers are unbounded and stand for nanoseconds where the
-- code has a time.Time, since Go's zero time. A statement of SQL is done whole or not at all. All
-- loops run over lists but that of WaitFor, which takes one round for each nanosecond up to its
-- deadline; that is enough, since a round takes at least one interval, and that of waitForJellyfin, to
-- which the number of rounds that its context leaves is given.
--
-- Not modelled: bcrypt, net/http, crypto/rand and the zitadel OIDC library, which are packages of
-- their own; the bodies that the reverse proxy copies, which are a further part of the program;
-- text/template, Docker, the other app specifications and the rest of the command line, which are data
-- and glue.
pub mod Common
pub mod Db
pub mod Throttle
pub mod Users
pub mod Sessions
pub mod Oidc
pub mod Proxy
pub mod Portal
pub mod Ports
pub mod Host
pub mod Orchestrator
pub mod Apps
pub mod Config
pub mod Cli
