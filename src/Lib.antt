-- ===== src/Lib.antt =====
-- Crane Spotter: the backend in app/, a FastAPI web server and a worker on one PostgreSQL database and
-- one bucket of Cloudflare R2.
--
-- The web server's handlers (app/routes/) call the services (app/services/) in a session of the
-- database (app/core/database.py). A visitor reports cranes, photos of them and that they are gone; an
-- admin signs in and reviews the photos. A photo's object is removed by the worker (app/worker/): the
-- deletion of a photo marks its row and queues a job in the outbox, in one transaction, and the worker
-- claims jobs under a lease, removes their objects and records the outcome.
--
-- Base: lists, options, order and numbers; Base.Int: Python's integers.
-- Models: the rows of app/models/base.py; Database: their constraints and cascades.
-- Schemas: app/schemas/base.py. Errors: app/core/exceptions.py and app/core/exception_handlers.py.
-- Settings: app/core/config.py. Env: what the program runs on and does not implement (PostGIS, Pillow,
--   requests, boto3, scrypt, SHA-256, UUIDs, random numbers), as functions that are parameters.
-- Exec: a session. `World` has the committed tables and those of the open transaction, the clock,
--   which of the next statements and commits fail, which rows others have locked, and the answers of
--   R2. An `Action` is a function of the program: it gives its result or its exception with the world
--   that it leaves. Exec.Keeps, Exec.Leads and Exec.Atomic have one rule for each way to build an
--   action: for invariants, for what holds between two statements, and for commits; Exec.Outcome has
--   what an action that returns has done.
-- Storage: app/services/storage.py. Geocode: app/services/geocode.py. Crane: app/services/crane.py.
-- Photo: app/services/photo.py, with `create_task` of app/services/job.py (Photo.Image is
--   `prepare_image`, Photo.Upload the upload and the deletion, Photo.Review the review and the reports).
-- Auth: app/services/auth.py and app/core/dependencies.py. Account: the command app/admin.py.
-- Database.Sessions: the profiles and the scope of a session in app/core/database.py.
-- Logging: app/core/logging.py, with the level that app/main.py asks for. Application: app/main.py and
--   the decorators of app/routes/; Application.Responses: its exception handlers by class.
-- Migrations: alembic/. Migrations.Versions has the files of alembic/versions as lists of operations,
--   Migrations.Ddl what PostgreSQL does with them (the tables that come with an extension are a
--   parameter), Migrations.Metadata the tables that the classes of
--   app/models/base.py declare, Migrations.Target the functions of alembic/env.py and
--   Migrations.Calls the script itself, as the list of its calls (Migrations.Script: the databases
--   that it runs on).
-- Worker: app/worker/photo_jobs.py (Worker.Jobs the claims and outcomes, Worker.Batch the batch and the
--   reaper), with the loop of app/worker/main.py, one entry of a list for each round.
-- Routes: app/routes/crane.py (Routes.Cranes, Routes.Photos), app/routes/auth.py
--   (Routes.Admin) and app/routes/health.py (Routes.Health).
-- System: transactions of several sessions in sequence, each on the tables that the ones before it have
--   committed, with any failures. The upload of a photo is three transactions, between which others run;
--   a row lock is held to the end of a transaction, so transactions that need the same lock run one
--   after the other. System.Statements lists what writes to the tables, so that an invariant is checked
--   one statement at a time (System.Lifecycle, System.History, System.References); System.Settled has
--   the two that a gone report makes together, and System.Drain a whole batch of the worker.
-- Tests: the theorems at concrete inputs.
--
-- Loops are recursions on lists: of photos, of claimed jobs, of the rounds of the worker. No definition
-- has fuel. Coordinates are integers in units of 1e-7 degree (those of
-- a box are floats, with NaN and the infinities: Base.Float), times are microseconds, UUIDs are numbers
-- in the order of UUID version 7, settings that count are not negative, and the time of a transaction
-- is constant, as `now()` is. A new row is put in front of its table. The SAVEPOINT of a gone report is
-- part of the statement in it.
--
-- Not modelled: the middleware, rate limits (app/core/limiter.py), the pool of connections, signals
-- and the wait of the worker, what the command prints, the bytes of images, and JSON: they are the
-- libraries' or hold no state of the program.
pub mod Base
pub mod Models
pub mod Errors
pub mod Exec
pub mod Settings
pub mod Env
pub mod Database
pub mod Storage
pub mod Geocode
pub mod Migrations
pub mod Schemas
pub mod Crane
pub mod Photo
pub mod Worker
pub mod Auth
pub mod Account
pub mod Logging
pub mod Application
pub mod Routes
pub mod System
pub mod Tests
