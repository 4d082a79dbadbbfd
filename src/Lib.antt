-- ===== src/Lib.antt =====
-- The Python SDK of Tamga: licensing, machine activation, and files that are verified offline.
--
-- The SDK talks to a server over HTTP and verifies signed files without it. This library models the
-- parts that decide something: what a file must be to be accepted and under which key, what is
-- hashed to identify a machine, what a client sends, sends again, creates or deletes, how an answer
-- becomes a resource, and how an error of the server reaches the caller.
--
-- Which file models what, by the paths of the repository:
--   Python       what the source uses of Python: `str` as code points and `bytes` as numbers (Str),
--                `int` (Int), exceptions as values (Exc), what `json.loads` returns (Json), `json.dumps`
--                with sorted keys (Dumps), base64 (Base64) and hexadecimal (Hash)
--   Prelude      tests, lists, predicates and sorting that the modules share
--   Fingerprint  src/tamga/fingerprint.py: `_pairs`, `_validate_label`, `_validate_value`,
--                `canonical_form`, `machine_fingerprint`
--   Crypto       src/tamga/crypto: the wrappers `verify`, `verify_pkcs1v15`, `verify_pss`,
--                `verify_p256`, `derive_machine_file_key`, `derive_license_file_key`, `decrypt`
--   Models       src/tamga/models, with the `_parse_...` functions of src/tamga/client.py: SigningKey,
--                Machine with the license schemes, Validation, Enum (what an enumeration makes of a
--                value), Policy with its Strategies and its Parsing, Reader (UUIDs and instants),
--                Records and Resources (their parsers), Meta (pages and validations), License
--   Checkout     src/tamga/checkout: Envelope is _envelope.py; KeySet is key_set.py; Claims and
--                LicenseFile are license_file.py; MachineFile is machine_file.py. LicenseFile and
--                MachineFile parse by Envelope, check a signature by Crypto, read the payload, its
--                claims and their expiry by Claims, and choose a key of several by KeySet
--   Proof        src/tamga/proof.py: `build_proof_payload`, `ProofResult.parse` and `verify`
--   Errors       src/tamga/errors.py: the table of codes and `parse_error_envelope`
--   Transport    src/tamga/transport.py: URLs, `sanitize_tamga_version`, `apply_auth`,
--                `parse_response`
--   Client       src/tamga/client.py. Retry is `_request_with_retry` and what it calls. Request is
--                what a request is made of: `TamgaConfig`, the first half of `_send_raw_response`,
--                `_headers`, `_json_headers`. Session is the sending: `_send_request` and its
--                variants, `_client_request`. Endpoint lists the operations with their paths, and
--                Pages the cursors. The sub-clients stand on these: Licenses, Entitlements,
--                MachineCalls with MachineBodies (`MachinesClient` but for its workflows), Components, Processes,
--                Account (signing keys, policies, releases), Artifacts, and Health for
--                `TamgaClient.health`; Changes compares those that change something, and
--                Credential those that make their own headers. Machines is the
--                activation workflows of `MachinesClient`, and Machines/Wire puts them on the calls
--                of MachineCalls and Licenses. Heartbeat is the intervals, the schedulers,
--                their loops and `dispose`
--
-- A method of a class is a function of its record. Fallible code returns a `Result`, with the
-- exception as its error; an exception keeps what a handler can read of it and not its text. A call
-- of a sub-client is a `Session`: it takes the requests sent so far, the latest first, and returns
-- its outcome with the requests sent after it; each answer of the server may depend on all requests
-- before it. A workflow of Machines carries calls in place of requests, and takes what the server
-- answers to a call from a record of operations, which Machines/Wire fills.
--
-- Parameters, since their code is elsewhere: the `cryptography` package (the record Cryptography,
-- whose operations return the outcomes that it documents), SHA-256, `json.loads`, the `repr` of a
-- value that is no text, how a float is written, `str.isalnum`, `UUID`, `datetime.fromisoformat`, the
-- clock, and what a request returns or raises (the record Context). `httpx` is taken to send a
-- request as it is given and to write a number in a parameter in decimal; it may raise any exception,
-- its own RequestError among them, instead of returning. Theorems that
-- need more of them say so in their hypotheses: that `json.loads` raises only JSONDecodeError and
-- UnicodeDecodeError, that key loaders raise only ValueError and UnsupportedAlgorithm, and that a
-- server pages its rows by their ids.
--
-- Fuel: the request loop has one turn for each retry and one for the first request, which is enough
-- for any answers. A walk of the pages of a list has one turn for each row and one more, which is
-- enough where the server pages its rows. The heartbeat loop runs for as long as it is let, so its
-- theorem speaks of every
-- number of turns. The digits of an integer are written on more fuel than the number, and more
-- changes nothing. All else is recursion on its data.
--
-- Left out: `PolicyResource.__getattr__`, the iteration and comparison of a key set, the constants of
-- src/tamga/models that only list known values, the constructor and the context manager of
-- `TamgaClient`, which hold `httpx`, and the texts of
-- exceptions. Of a float of JSON only what `int` and `bool` see
-- of it is kept. Jitter is an unknown fraction of a second.
pub mod Prelude
pub mod Python
pub mod Fingerprint
pub mod Crypto
pub mod Models
pub mod Checkout
pub mod Proof
pub mod Errors
pub mod Transport
pub mod Client
