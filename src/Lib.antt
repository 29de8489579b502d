-- ===== src/Lib.antt =====
-- The Margo identity and attestation server (MIS) of completed/miaf-poc: the identity service of
-- pkg/mis/identity, the SQL store of pkg/mis/store that it works on, and what stands before it in an
-- enrollment or a renewal: the handlers of pkg/mis/transport/http, the enrollment-token method and the
-- jti replay store of pkg/mis/bootstrap, and the parser of certificate requests of pkg/mis/csr. And the
-- desired-state server of completed/sup_desired_state_via_manifest_api (pkg/wfm) with its client
-- (cmd/wfm-client), which is a program of its own. The device agent of completed/miaf-poc
-- (pkg/device-agent) is modelled with the manager of its identity and its caches.
--
-- A device proves an External Secure Identity (ESI) to a bootstrap validator and sends a certificate
-- request. Enroll binds the ESI to a logical device identity (LDI) with a SPIFFE ID of its own and
-- hands out an X.509 SVID; Renew and IssueJWTSVID hand out further ones; RevokeSPIFFEID revokes
-- what is outstanding and blocks the LDI. Every issued SVID has a row in an audit, which Enroll,
-- Renew and RevokeSPIFFEID read to find what is outstanding, and every revoked one has a row in the
-- revocation list. Beside these stand the single-use enrollment tokens and replacement tickets, the
-- jti replay table, and the limit on renewals.
--
-- The device agent renews its SVID, exchanges it for JWT SVIDs, which it caches, refreshes the bundle map
-- and checks the revocation list for its own certificate; from then on it halts. One goroutine takes these
-- commands in turn; what the network, the disk and the keys answer are arguments of a command.
--
-- The desired-state server keeps the deployments of each device, their descriptors and one bundle of
-- them under their digests, and a manifest with a version that lists them. A device polls the manifest,
-- fetches what it does not have, checks the digests and reconciles what it runs.
--
-- Files:
-- - Prelude: Boolean tests on the native numbers, results with errors, table operations on lists of
--   rows with their laws; the library's names passed on.
-- - Instant: instants and the order of their texts in the store. Instant/Order relates it to the
--   order of the instants.
-- - Errors: the error sentinels of these packages.
-- - Platform: crypto/x509, crypto/sha256, encoding/hex, encoding/base64 and encoding/pem, as a record
--   of functions.
-- - Store: the tables of pkg/mis/store/schema.sql as a record of lists of rows. Its children are the
--   Go files of pkg/mis/store: Identities (identities.go), IssuedSvids (issued_svids.go), RevokedSvids
--   (revoked_svids.go), EnrollmentTokens (enrollment_tokens.go), ReplacementTickets
--   (replacement_tickets.go), RenewalEvents (renewal_events.go), JwtReplay (jwt_replay.go and
--   issued_jwt_svids.go). Each has a child with its proofs.
-- - Identity: pkg/mis/identity/service.go: the Service and the steps that its methods share. Its
--   children are Enrollment (Enroll, handleInitial, handleReplacement, handleReEnrollment), Renewal
--   (Renew), Revocation (RevokeSPIFFEID) and JwtSvid (IssueJWTSVID of jwtsvid.go), and the proofs on
--   the shared steps (Revoking, Issuing, Refusals).
-- - CsrParsing: pkg/mis/csr/parse.go.
-- - Bootstrap: pkg/mis/bootstrap/validator.go; Bootstrap/Secrets is tokens/token.go and
--   Bootstrap/EnrollmentToken is validator.go and csrfp.go of its enrollmenttoken folder;
--   Bootstrap/FactoryJwt and Bootstrap/FactoryMtls are validator.go of factorycertjwt and
--   factorycertmtls; Bootstrap/ReplayMemory is factorycertjwt/replay/store.go.
-- - Jose: what go-jose and crypto/x509 answer about a signed assertion, and the steps that its two
--   verifiers share.
-- - JwtExchange: audience.go and clientassertion.go of pkg/mis/jwtexchange.
-- - Transport: the problems of pkg/mis/errors; Transport/Enrollment, Transport/Renewal and
--   Transport/JwtSvid are enrollment.go, renewal.go and jwtsvid.go of pkg/mis/transport/http, with
--   spiffeid.go.
-- - Fleet: the types and the digest of the desired-state server. Fleet/Tables is schema.sql and
--   db/query.sql.go, Fleet/Repository repository/deployment.go (both of
--   pkg/wfm/adapter/persistence/sqlitedb), Fleet/Service pkg/wfm/core/service/deployment.go, Fleet/Handler
--   and Fleet/Etags pkg/wfm/adapter/transport/http/deployment.go, Fleet/Fetching and Fleet/Client
--   cmd/wfm-client/main.go.
-- - Transport/Revocations and Transport/BundleMap are revocations.go and bundlemap.go of
--   pkg/mis/transport/http, Transport/Conditional is conditional.go. Transport/Admin is
--   pkg/mis/transport/admin without its server.
-- - Agent: what the device agent keeps (pkg/device-agent/agentstate, identitymanager/manager.go).
--   Agent/Renewing, Agent/JwtCaching, Agent/Revocations and Agent/Commands are renew.go, exchangejwt.go
--   with jwtsvid/cache, checkrevocations.go with revocations/client.go, and the loop of commands with
--   refreshbundle.go, status.go and bundle/client.go. Agent/Propagation and Agent/Revoked join
--   them with the server.
-- - Examples: a concrete store and service, with the instances of the theorems.
--
-- How the code is modelled:
-- - An operation takes the tables and returns its result with the tables after it, on an error too: a
--   write that precedes an error stays. A transaction that fails leaves the tables as they were.
-- - A constraint of schema.sql (primary key, unique index, foreign key) is a test before the write.
--   Other failures of the database (a lost connection, a full disk) are not represented.
-- - An instant is the number of nanoseconds since the first instant of year 1, the zero of time.Time.
--   The columns hold RFC3339Nano texts in UTC and SQL compares texts, so `text_lt` compares texts where
--   the code leaves the comparison to SQL, and numbers where the code parses the column first.
-- - A call reads the clock once; the code reads it several times. A duration that the code rejects or
--   replaces when it is not positive is a natural number, with 0 for all of those.
-- - uuid.New, the Issuer and the signer answer by arguments of the call. Parsing certificates, hashing
--   and encoding are functions of Platform, of which nothing is assumed.
-- - A BLOB is the String of its bytes, which the code only compares.
-- - A handler takes the decoded body, none where it cannot be read or decoded, and returns the status
--   and the type of a problem or the response. Titles, details, logs and the headers other than those of
--   a conditional answer are left out. The hook that commits an enrollment runs after the response is
--   written, in the same step.
-- - The manager of the agent loads its state once and takes its commands one after another, and what
--   renew.Renew, jwtsvid.Exchange, the disk and the keys answer are arguments of each command.
-- - A Go map of the client is the list of its entries, at most one for a key where the code writes by
--   key; the loops over it do not depend on their order.
-- - A version of the desired-state server is a number below 2 ^ 64, and its increment wraps around.
--
-- The loop of clientHasETag has fuel, one round more than the header has characters (Fleet/Etags/Rounds);
-- every other loop is by recursion on the rows, the revoked SVIDs, the links, the polls or a text.
--
-- Not modelled: the certificate authority of the MIS and the builder of the bundle map; of the device
-- agent the scheduler, the sockets, the enrollment and the HTTP clients that renew and exchange; of the
-- desired-state server the routing, the start of the programs and the opening of the database. Nil
-- dependencies, which make the constructors panic, do not occur in the model.
pub mod Prelude
pub mod Instant
pub mod Errors
pub mod Platform
pub mod CsrParsing
pub mod Store
pub mod Identity
pub mod Bootstrap
pub mod Transport
pub mod Agent
pub mod Fleet
pub mod Jose
pub mod JwtExchange
pub mod Examples
