-- ===== src/Lib.antt =====
-- Verification of Pixeldive, the photo session service: `app/` is the server (REST and gRPC over
-- the same services), `sdk/pixeldive_sdk/` the Python client.
--
-- How the parts interact. The client cuts a payload into frames (sdk/pixeldive_sdk/chunking.py,
-- grpc_iter.py). The gRPC handlers (app/rpc) put the frames together again: each frame's bytes go to
-- a spool (app/blobs/spool*.py), a `.part` file that is hashed as it is written, and the headers of
-- the first frame are parsed. A whole spool is an `ImageUpload`, which the session service stores.
-- Before it does so the tenant quota (app/sessions/quotas.py) reserves its bytes in one of three
-- stores: in process, SQL, or Redis.
--
-- Which file models what:
--   Prelude       lists, options, Boolean tests, keys with a decidable equality, and dictionaries
--   Errors        app/exceptions.py, app/error_map.py, and `abort_rpc` of app/rpc/grpc_errors.py
--   Exec          methods that change a state and may raise
--   Quota         app/sessions/quota*.py: Limits, Memory, Sql, Redis, and Tenant for `TenantQuota`;
--                 Ledger is what a store promises about reserved bytes
--   Blobs         app/blobs: Spool, Filenames, Uploads, Validate (upload_validate.py, magic.py),
--                 Store (the local blob store, a save as one step), Local (its saves await by
--                 await), S3 (s3_*.py: Multipart and Storage), Gc (blob_gc.py)
--   Auth          app/sessions/auth.py
--   Pagination    app/sessions/pagination.py and cursors.py
--   Sessions      app/sessions/service.py, session_*.py: Model for the tables, Rows for their rows,
--                 Service for single sessions, Uploads and Ingest for batches of images, Listing
--                 for the lists; Requests is what a front end may call in any order, lists apart
--   Rpc           app/rpc: Wire for the messages and the headers, Single for `assemble_single`,
--                 Batch for `assemble_batch`, Codec for the mapping of messages and patches, and
--                 Servicer for the nine calls of the gRPC service
--   Rest          app/rest: Images for the files of a request, Messages for the requests and their
--                 answers, Routes for the routes
--   Settings      app/config.py, production_limits.py, tls_files.py, and the parsers of API_KEYS; Keys,
--                 Laws and Tls for what holds of them
--   Runtime       app/runtime.py and app/lifecycle.py: the start of the process and its end
--   Sdk           sdk/pixeldive_sdk: Chunks for the frames that the client sends,
--                 Mapping for the patch of a session as a request, Client for the gRPC client
--
-- How code is modelled. A method is a function from the state to a result and the new state, and
-- what a method wrote before it raised stays written. Python's integers are natural numbers: all of
-- those modelled are counts, sizes, indices and clock readings; where the source subtracts, the
-- module says why the truncated difference is the same. A method that holds a lock or runs inside
-- one transaction or one Lua script is one step. An asynchronous stream is the list of what it
-- yields. UUIDs and paths are numbers, bytes are lists of numbers, a clock reading is an argument.
--
-- Loops. A loop over a stream is structural recursion. `iter_bytes` and `iter_path` of the client
-- take fuel: the payload's length, and one more than the file's length. Each round but the last
-- takes at least one byte, so this is enough, and their theorems are about the complete result. The
-- parts of a multipart upload have fuel for two rounds more than the file has bytes, which is enough
-- likewise; to list the bucket takes a round for each page that the service has.
--
-- A batch of requests is a list of steps; a request of the session service is one step, except that
-- `Gc` reads the image rows anew at each of its queries, as other requests may have changed them.
--
-- Parameters. hashlib, uuid, json, base64 and the Redis server are not in the repository: the digest
-- is a function of the bytes, a `Codec` parses UUIDs and metadata, a `CursorCodec` writes and reads
-- cursors, and `RedisServer` is the server's commands with the laws that its documentation gives. The
-- S3 client is an `ObjectClient`, and `IsMultipart` what S3 documents of multipart uploads.
-- protobuf's Struct is a `StructCodec`, and a device message a value that pydantic checks.
-- `str.strip` and `str.lower`, UTF-8, the database's ORDER BY, and whether the disk allows hard
-- links are parameters, too.
--
-- Not modelled: FastAPI's parsing of requests, the health routes, how the web and gRPC libraries
-- start their servers, the sweeper's loop (a sweep itself is in `Gc`), the S3 client itself, path
-- containment on the disk, the SQL engine (a table is a list of rows), logging, metrics, migrations,
-- the REST client, the demo page, the scripts, and the mobile clients.
pub mod Prelude
pub mod Errors
pub mod Exec
pub mod Quota
pub mod Blobs
pub mod Auth
pub mod Pagination
pub mod Sessions
pub mod Rpc
pub mod Rest
pub mod Settings
pub mod Runtime
pub mod Sdk
