-- ===== src/Tests/Values.antt =====
-- An environment, tables and a world for the tests.
use crane_tracker.Base.{ℕ, ◌+◌, String, true, false, none, some, [], ◌∷◌}
use crane_tracker.Base.Int.{pos, negsuc}
use crane_tracker.Models.{
  Crane, CraneStatus, CranePhoto, CranePhotoStatus, OutboxJob, JobOperation, JobStatus, AdminUser,
  Db,
}
use crane_tracker.Settings.{Settings, UrlLibrary}
use crane_tracker.Env.{Env, Answer, Body, done}
use crane_tracker.Exec.{World}
use crane_tracker.Schemas.{CraneInput}
use crane_tracker.Photo.Upload.{UploadFile}

abbrev pub settings : Settings
settings = record {
  database_url = "postgresql://db";
  test_database_url = none;
  environment = "production";
  cors_origins = [];
  gone_report_threshold = 2;
  ip_hash_salt = "salt";
  admin_token_ttl_seconds = 60;
  r2_endpoint_url = some "https://r2";
  r2_access_key_id = some "key";
  r2_secret_access_key = some "secret";
  r2_bucket_name = some "bucket";
  r2_public_base_url = some "https://cdn/";
  job_batch_size = 2;
  worker_sleep_period = 5;
  max_worker_attempts = 5;
  min_backoff_delay = 100;
  max_backoff_delay = 5000;
  photo_reaper_delay = 5000;
  lock_lease_window = 30;
}

abbrev pub library : UrlLibrary
library = record { scheme = λ _. "https"; netloc = λ _. "host"; lower = λ s. s }

-- The hash of a text is the text, an image is stored as it is, and every crane is a neighbor.
abbrev pub env : Env
env = record {
  settings = settings;
  library = library;
  postgis = record { st_dwithin = λ _ _ _. true; intersects = λ _ _. true };
  requests = record {
    get = λ _ _. Answer.response 200 (Body.json (some (("city", "Kyoto") ∷ [])));
    raises = λ _. false;
    truth = λ _. true;
    digits = λ _. "200";
  };
  pillow = record {
    open_image = λ file. done (record {
      format = some "PNG";
      mode = "P";
      width = 20;
      height = 10;
      info = ("exif", "GPS") ∷ [];
      pixels = file;
    });
    verify = λ _. done tt;
    exif_transpose = done;
    copy = done;
    convert = λ mode image. done (record image { mode = mode });
    save = λ _ image. done image.pixels;
  };
  crypto = record {
    hmac_sha256 = λ _ s. s;
    scrypt = λ _ _. some "c0ffee";
    sha256 = λ s. s;
    token_urlsafe = λ _. "token";
    token_hex = λ _. "5a17";
  };
  uuid7 = λ n. 100 + n;
  uuid_str = λ _. "id";
  connects = λ _ _ _. true;
  quote = λ s. s;
  uniform = λ _ b. b;
}

abbrev pub crane : Crane
crane = record {
  id = 1;
  lat = pos 350000000;
  lng = negsuc 1200000000;
  location = record { lng = negsuc 1200000000; lat = pos 350000000 };
  project_name = some "Tower";
  status = CraneStatus.active;
  city = none;
  neighborhood = none;
  added_at = 10;
  updated_at = 10;
}

abbrev pub photo : ℕ → CranePhotoStatus → String → CranePhoto
photo id status key = record {
  id = id;
  crane_id = 1;
  storage_key = key;
  original_filename = "a.png";
  content_type = "image/png";
  added_at = 10;
  status = status;
}

-- a job whose lease is over
abbrev pub job : OutboxJob
job = record {
  id = 7;
  operation = JobOperation.delete;
  storage_key = "k5";
  status = JobStatus.processing;
  attempts = 2;
  available_at = 20;
  lease_expires_at = some 30;
  last_error = none;
  created_at = 20;
  completed_at = none;
}

abbrev pub admin : AdminUser
admin = record { id = 3; username = "ada"; password_hash = "scrypt$5a17$c0ffee"; is_active = true }

abbrev pub tables : Db
tables = record {
  cranes = crane ∷ [];
  photos =
      photo 4 CranePhotoStatus.active "k4"
      ∷ photo 5 CranePhotoStatus.pending_delete "k5"
      ∷ photo 6 CranePhotoStatus.active "k6"
      ∷ [];
  gone_reports = [];
  jobs = job ∷ [];
  admins = admin ∷ [];
  tokens = [];
  photo_reports = [];
}

abbrev pub world_at : ℕ → Db → World
world_at time d = record {
  committed = d;
  working = d;
  transaction = 0;
  clock = λ _. time;
  faults = [];
  drawn = 0;
  locked = λ _. false;
  replies = [];
  requests = [];
}

abbrev pub world : World
world = world_at 50 tables

abbrev pub input : CraneInput
input = record { lat = pos 350000000; lng = pos 1350000000; project_name = none }

abbrev pub upload : UploadFile
upload = record { file = 1 ∷ 2 ∷ 3 ∷ []; filename = "b.png"; content_type = "image/png" }
