-- ===== src/Lib.antt =====
-- shield-api: a model of the parts that decide who may do what, and on which data.
--
-- Requests pass two guards. The first (src/auth/auth.guard.ts) asks the authentication service
-- (src/auth/auth.service.ts) for the access grant of the user; the second
-- (src/auth/policies.guard.ts) runs the endpoint's policies on that grant. Services then use the
-- grant, and the database's row-level security is set up from it (src/prisma/prisma.service.ts).
--
-- Auth.Scope: src/auth/utils/scope.ts. Auth.Capabilities: src/auth/utils/capabilities.ts.
-- Auth.AccessGrants: src/auth/utils/access-grants.ts, with `reduceAccessGrants` as a loop over a
--   grant whose fields are the source's variables, and the cache keys as native texts.
-- Auth.SiteVisibility: src/auth/utils/site-visibility.ts. A `Map` is the list of its entries.
--   `getDescendants` takes the depth of the call stack as fuel; where it runs out the model raises
--   the source's RangeError. A depth above the height of the site tree is enough.
-- Auth.Resolution: `getAccessGrantForUserFromDatabase` and what it calls. The rows that the
--   queries return are arguments (`Rows`), and so is `toLowerCase`.
-- Auth.Guards: the two guards, the policy decorators, `getAccessIntent` of src/common/utils.ts and
--   the decision to bypass row-level security. What `validateJwtToken` and the reflector return
--   are arguments.
-- Admin.Roles: the operations of src/admin/roles/roles.service.ts that change the table of roles,
--   over an interface to the database (`Common.Tables`) that states what Prisma's queries do to
--   the list of a table's rows. An operation that throws leaves the table as it is.
-- Clients.Invitations: src/clients/invitations/invitations.service.ts over the same interface, with
--   the tables of invitations and of access records. The rows that row-level security shows are an
--   argument, and so are `toLowerCase`, the clock and what `nanoid` draws. `renew` is no transaction,
--   so its result holds the table besides what `createBulk` returns or throws.
-- Clients.Members: the operations of src/clients/members/members.service.ts and
--   src/clients/users/users.service.ts that add and remove access records, on one table of them, with
--   the policy of row-level security on it; a call is a `Command`.
-- Clients.Access: src/clients/client-access/client-access.service.ts. The `Map` of groups is the list of
--   its entries.
-- Cache: `getOrSet` of src/cache/memory-cache.service.ts as a relation on the states of the service,
--   with a step for each stretch of code between two awaits, so that any two calls may interleave.
--   Values expire at any time.
-- Auth.Signing: signing keys, `generateSignature` and custom tokens of src/auth/auth.service.ts.
--   Node's HMAC, base64url, and the text of a number are a parameter (`Runtime`), and so is the JSON of
--   a custom token (`TokenFormat`), whose head holds natural numbers; the table of keys is explicit.
-- Auth.AccessSync: `syncUser` and the loops of src/auth/keycloak/keycloak-access-sync.service.ts on
--   the tables of persons and of access records; Keycloak's answers are an argument.
-- Tags.Tokens: the signed URLs and inspection tokens of src/assets/tags/tags.service.ts on top of it.
-- Tags.Access: who may see a tag there, with `getAllowedSiteIdsForSite` of
--   src/prisma/prisma.service.ts. Tags.Registration: `registerTag`, whose effects on the table of tags
--   stay where it throws, and `checkRegistration`. The rows that row-level security shows are an
--   argument; the link from an asset to its tag is the tag's `asset_id`, which moves with the asset.
-- Products.Questions: `findQuestionIdsByAsset` of
--   src/products/asset-questions/asset-questions.service.ts, its SQL as joins, a filter and groups on
--   the lists of the rows, with `normalizeState` of src/common/address-utils.ts.
-- Assets.Sessions: the inspection sessions of src/assets/inspections/inspections.service.ts on the
--   table of sessions and the list of completed points. `subDays` of date-fns is an argument.
-- Assets.Alerts: `testAlertRule` of src/common/alert-utils.ts. The numbers and dates of JavaScript, its
--   comparisons and its texts are the record `Values`, an argument of the definitions.
--   Assets.Alerts.Triggers: `handleAlertTriggers` of src/assets/assets/assets.service.ts; the parser of
--   rules and the identifiers of new rows are arguments.
-- Common: what the modules share. Exceptions are values, by their HTTP status.
--
-- Not modelled: the plain queries of assets, inspections, products, clients, reports and statistics,
--   whose content is the database's; e-mails and queues, streams, the one-time import of old data,
--   and the requests to Keycloak, which are I/O. The settings and the serial numbers of a bulk
--   request are left for later.
--
-- Texts of messages and logging are left out. A text that may be undefined or null is an `Option`;
-- the tests for truth are written out, so that an empty text counts as absent where it does in the
-- source.
pub mod Common
pub mod Auth
pub mod Admin
pub mod Clients
pub mod Cache
pub mod Tags
pub mod Products
pub mod Assets
