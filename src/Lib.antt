-- ===== src/Lib.antt =====
-- A verification library for the backend of the face recognition service.
--
-- The service keeps persons, their faces with embeddings, users, API keys and an audit log in
-- PostgreSQL. A request passes the guards of app/api/deps.py, runs a handler of app/api/v1 in
-- one database session, and is committed or rolled back as a whole. Handlers call the services of
-- app/services, which call the recognition pipeline of app/recognition and the repositories of
-- app/repositories. The import jobs and the counts of the rate limiters live outside of the database: in
-- the process, or in Redis where several workers share them.
--
-- The files and the code that they model:
-- Prelude: shared types and lemmas: lists, options, integers (`ℤ`), dicts, the interface `Float` of
--   Python's and numpy's floats with the laws of its order (`IsOrdered`), sorting, characters of ASCII
--   texts, decimal numerals, and lists of the states of threads.
-- Core: app/core/exceptions.py (the errors, their status and code) and the roles of
--   app/core/security.py. A result is a value or an exception. `Core.RedisClient` is get_redis of
--   app/core/redis_client.py, as threads that interleave at every access to the module's globals.
-- Store: app/models, app/repositories, app/db/session.py and the triggers of
--   alembic/versions/0004_faces_is_active_partial_index.py. `Store.Rows` has the tables, `Store.Session`
--   the session as a state monad with exceptions, in which a failed flush makes every further use raise,
--   and `get_db`. `FaceRepository.search` is `ann_search`. Constraints, triggers and cascades are
--   part of the statements. pgvector's distance and its approximate scan are the parameter `Pgvector`.
-- Vision: app/recognition: pipeline.py, types.py, detector/scrfd.py, aligner/aligner.py,
--   arcface/arcface.py and search/similarity.py, with app/core/imaging.py. OpenCV (`OpenCv`), the
--   networks (`Scrfd`, `ArcFace`), numpy's norm and products (`Linalg`) and the warp of a face (`Warp`)
--   are parameters. The pipeline is over its three parts (`Parts`), which `Vision.Build` builds from the
--   settings.
-- Recognition: app/services/recognition_service.py; `RecognitionService.search` is `search_gallery`.
-- Access: app/core/security.py, app/services/auth_service.py, app/services/api_key_service.py and the
--   guards of app/api/deps.py. jose, passlib, hashlib and secrets are the parameter `Crypto`.
-- Api: the endpoints of app/api/v1/persons.py, app/api/v1/faces.py, app/api/v1/external.py,
--   app/api/v1/auth.py, app/api/v1/api_keys.py, app/api/v1/analytics.py and app/api/v1/health.py.
--   `Api.Imports` has the start and the poll of an import, `Api.Gallery` the pages of the gallery.
-- Jobs: app/services/job_store.py: the in-process store as runs of atomic calls (`Jobs.Calls`), and the
--   store in Redis (`Jobs.Redis`) over an interface of the commands with their laws (`IsRedis`).
--   `Jobs.Workers` has workers that send the commands of their calls one by one, in any order of turns.
-- RateLimit: app/core/rate_limit.py: the in-process limiter, the one that counts in Redis over the
--   interface `Redis`, the choice between the two, and the parser of a rate.
-- Bulk: app/services/bulk_import_service.py, over the session of each batch; the file system,
--   the database's answer to a commit and the texts of messages are the parameter `Host`.
-- Startup: `lifespan` of app/main.py, scripts/create_admin.py, and from app/api/deps.py the pipeline and
--   the recognition service of a request.
-- Migrations: the four files of alembic/versions, as SQL statements on a catalog of the database's objects,
--   and the update of the rows by the last of them. A body of a function is no part of the catalog.
-- System: all of it together, as steps from one state of the database to the next: starts, requests to
--   the endpoints that write, and imports. What all of them keep is shown once, for any property that the
--   statements keep (the records of `Store.Keeps` and `Store.Data`).
-- Samples: concrete data for the tests, which stand in the modules Tests.
--
-- Fuel: only the loop of `_nms` runs on fuel, the number of its rows; each round takes a row away, so
-- it is enough. All other loops are structural recursion.
-- Numbers: counts and identifiers are natural numbers, as Python's integers do not overflow;
-- integers that can be negative are `ℤ`; floats are a type with operations, of whose order the theorems
-- assume that it is total and transitive, which holds without NaN. Clocks, fresh identifiers, salts and
-- entropy are arguments.
--
-- Not modelled: logging, the assembly of the application from its routers and middleware, the reading of
-- the settings, alembic/env.py, the frontend and the repository's own tests: they configure libraries or
-- are not part of the service.
pub mod Prelude
pub mod Jobs
pub mod RateLimit
pub mod Core
pub mod Startup
pub mod Migrations
pub mod Store
pub mod Access
pub mod Vision
pub mod Recognition
pub mod Api
pub mod Bulk
pub mod System
pub mod Samples
