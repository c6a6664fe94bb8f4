-- ===== src/Lib.antt =====
-- The relay router of AetherCode (router/): a gateway that accepts OpenAI-compatible requests, picks an
-- upstream provider for the model and the endpoint, relays the answer, and records and charges the use.
--
-- The parts and how they interact
--   A write of a provider or a channel (Store/Mutations) is a transaction that ends with a bump of a
--   configuration version (Store/Versions). Each router polls that version (Store/Sync), reads the rows and
--   replaces its routing cache (Store/Cache). A request is routed (Routes), authenticated (Relay/Auth,
--   Keys), checked (Relay/Body) and relayed (Relay/Attempts): the cache picks a provider, the provider
--   is asked, and a failure goes to the next one. The answer is copied to the client (Relay/Response). The
--   use is recorded, and charged at the price in effect (Billing).
--   An operator changes providers and channels through the administration (Admin), which reloads the cache of
--   its own router behind each write. An account manages its keys through a service of its own (Account).
--
-- Where the code is modelled
--   Store/Capability, Store/Provider: router/internal/store/provider.go, `Provider` with its defaults, its
--     lists and its endpoint capabilities.
--   Store/Columns: provider.go, `Value` and `Scan` of `StringMap` and `StringList`.
--   Store/Channel: router/internal/store/platform.go, `ProviderChannel`, `applyDefaults`, `ToProvider`,
--     `Public` and `ResolveSecretRef`.
--   Store/Import: platform.go, `ImportLegacyProvidersAsChannels`.
--   Store/Cache: provider.go, `Cache.Replace`, `SelectForCapability`, `idsForLocked`, `pickWeighted`; in
--     Store/Cache/Models `Stats`, `Models` and `Model`.
--   Store/Mutations, Store/Versions: the writes of provider.go and platform.go, `bumpConfigVersions`,
--     `configVersion`, `ensureConfigVersion`.
--   Store/Sync: `ReloadCache`, one tick of `SyncCache`, `RoutingProviders`, and the test of `ready` in
--     router/internal/app/server.go. A step relation interleaves the statements of reloads with writes.
--   Keys: platform.go, accounts, API keys, `ValidateAPIKey`, `APIKeyCache`, `setAPIKeyStatus`,
--     `CreateAPIKey`; in Keys/Cache/Sync `ReloadAPIKeyCache` and one tick of `SyncAPIKeyCache`.
--   Billing: platform.go, `PriceConfig`, `UsageEvent`, `BillableCharge`, `ResolvePrice`,
--     `CreateUsageEvent`, `CreateBillableChargeForEvent`.
--   Relay: router/internal/app/openai.go, with errors.go, usage.go and the authentication
--     of server.go.
--   Relay/Listings: router/internal/app/models.go. Relay/Serve: the handlers of routes.go.
--   Routes: router/internal/app/routes.go, `relayRouteMatrix`, `matchRoutePath`, `matchRouteSegment`, the
--     loop of `relayRouteHandler` and `writeMethodNotAllowed`.
--   Admin: router/internal/app/admin.go and admin_channels.go, and their part of `Routes` in server.go.
--   Server: `health` and `ready` of router/internal/app/server.go.
--   Account: router/internal/account/server.go.
--   Upstream: router/internal/upstream/client.go, `normalizeEndpoint`, and in Upstream/Client the rest.
--   Config: router/internal/config/config.go.
--   Http: the calls of `http.ResponseWriter` that the handlers make, in order.
--   Text, Base: Go's strings, maps and 64-bit integers, and what the other modules share. Text/Frame is the
--     text form that the codecs of the tests read and write.
--
-- How it is modelled
--   A Go string is the list of its bytes; white space and letter case are those of ASCII. A map is an
--   association list with each key once, and its iteration order is that of the list. Versions, ids and
--   weights are natural numbers; the sum of weights and the price product wrap at 64 bits, and the id of a
--   channel's provider too. A call that can fail returns a result, and a state is passed on explicitly. A
--   relay is the list of the events that it causes: providers asked, usage records, calls of the writer.
--   `none` is a panic of `rand.Intn` or of an index.
--   The loop over attempts recurs on the number of attempts that are left, which starts at
--   `MaxRetries + 1`: that is the number of turns of the Go loop, so nothing is cut off. The loop that
--   copies a body recurs on the reads that the upstream body answers.
--
-- What is a parameter
--   gorm and the database (Store/Database: transactions commit or leave no trace, and statements do to
--   the rows what they say), encoding/json, HMAC-SHA256, random numbers, the clock, environment variables
--   and files, the host name, `time.ParseDuration`, `url.PathUnescape`, gollm's registry of providers and the
--   HTTP client behind it, and the client's connection. What is assumed of them is a hypothesis of the
--   theorems that need it. Store/Memory and Keys/Memory are databases in memory that have the assumed laws.
--   An insert of gorm fills in the primary key and a zero time of creation. `encoding/json` is assumed to
--   keep valid strings and maps, and to write raw values in compact form, with the keys in any order.
--   gorm's hooks are part of the writes: which row a hook sees is written out in Store/Mutations.
--
-- What is not modelled
--   The commands (router, migrate, account-service and the mock provider), which are the start of processes,
--   signals and HTTP servers; opening the database and AutoMigrate; logging. Mutexes are not modelled: an
--   operation on a cache is one step. `http.ServeMux` is modelled for paths that it has cleaned.
pub mod Base
pub mod Text
pub mod Store
pub mod Http
pub mod Keys
pub mod Relay
pub mod Routes
pub mod Billing
pub mod Upstream
pub mod Admin
pub mod Account
pub mod Server
pub mod Config
