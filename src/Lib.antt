-- ===== src/Lib.antt =====
-- The server of the 8th-layer agent (server/backend/src/cq_server): a store of knowledge units for
-- each group of an Enterprise, with a review of what is shared, consents between groups, invitations
-- and a signed log of what happened. The Python files below are named from that directory.
--
-- The parts and their files:
-- - Merkle: merkle.py, the root over the day's event hashes (`merkle_root`, `_strip_prefix`,
--   `_hash_pair`). Merkle/Tree has its reference definition and Merkle/Binding the collisions.
-- - Reputation: reputation.py, `record_event` with its savepoint over the tables of migration 0008.
--   Reputation/Verifier is reputation_verifier.py (Reputation/Verifier/Order the order in which an
--   auditor reads the events), Reputation/DailyRoot is daily_root.py, which reads
--   the log and calls Merkle.
-- - Crypto: crypto.py, signatures and their check. Reputation, Consent, Aigrp and Forward use it.
-- - Consent: xgroup_consent.py, grants between two groups that both administrators sign
--   (Consent/Steps: propose, cosign, ratify; Consent/Revoke; Consent/Reads).
-- - CrossConsent: the consents between Enterprises of store/_sqlite.py, and the choice among them.
-- - Invites: invites.py, tokens that are claimed once.
-- - Replay: the cache of message ids of aigrp/envelope.py. Aigrp: the secret of a pair of groups
--   (aigrp/pair_secret.py) and the envelopes of aigrp/envelope.py, which end in that cache.
-- - Forward: a query from one group's server to another's. Forward/Identity is the check of the
--   forwarder in aigrp/_legacy.py and forward_sign.py, Forward/Search the search of store/_sqlite.py,
--   Forward/Query the policy and the handler `aigrp_forward_query` of app.py, which asks CrossConsent.
-- - Federation: which peers a query is sent to. Federation/Bits and Federation/Bloom are the Bloom
--   filter of aigrp/_legacy.py, Federation/Endpoint and Federation/Peers the check of an endpoint and
--   the choice in aigrp/federation.py.
-- - Mail: the mail service in transactional. Mail/Send is the handler of routes.py, over Mail/Auth
--   (auth.py), Mail/Request (the body's model), Mail/Idempotency, Mail/Tenancy and Mail/Suppression
--   (suppression.py and sns_writer.py).
-- - Review: the review statements of store/_sqlite.py, and in Review/Handlers the handlers of
--   review.py, which write to the reputation log through `record_event`.
-- - Sql: the statements that the stores issue, over a table as the list of its rows. Common: names,
--   lists, texts and the monad of code that changes a state and may raise (Common/Exec).
--
-- A table is the list of its rows in insertion order, a WHERE clause a test on a row. A handler takes
-- the clock's readings and its random draws as arguments. What is outside the repository (SHA-256,
-- canonical JSON, Ed25519, JWT, HMAC, base64, numpy, the
-- environment) is a field of a record of each component (`Host`, `Libraries`, `Setting`, `Vectors`); what
-- a theorem needs of it is a named hypothesis (`IsHashing`, `IsSigning`, `IsBase64`,
-- `ReadsBack`, `IsStable`). So are the key of the process and its public half, which forward_sign.py
-- loads.
-- Instants are natural numbers of microseconds.
--
-- The one loop on fuel is `reduce` of Merkle: a level of n nodes has n rounds to go, and each round
-- shortens it, so that the fuel is enough.
--
-- Not atomic where it matters: a claim of an invite and a review decision are modelled with the writes
-- of other requests between their read and their write. The handlers of Consent are single steps.
--
-- Not modelled: the routes of app.py but the one above and network.py, the rest of the peer protocol
-- (aigrp: the request to a peer, the bearers and the peer table), consults and crosstalk, sign-in, the
-- user creation of a claim, the publication of roots to the directory, the dashboards, the Python
-- client (sdk/python), the plugins and the web page. Statements that fail in the recorder of
-- notifications, which logs and goes on, are left out, and so is the concurrency of two mail requests.
pub mod Common
pub mod Sql
pub mod Crypto
pub mod Aigrp
pub mod Consent
pub mod CrossConsent
pub mod Federation
pub mod Forward
pub mod Invites
pub mod Mail
pub mod Replay
pub mod Review
pub mod Merkle
pub mod Reputation
