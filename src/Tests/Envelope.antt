-- ===== src/Tests/Envelope.antt =====
-- The chain around a handler that panics, and the start of a production installation.
use go_identity_service.Base.{
  ℕ, pos, codes, text_eq, str_eq, len, ◌≡◌, refl, none, some, [], ◌∷◌, ◌↔◌, ◌⊎◌, true, false,
  if◌then◌else◌,
}
use go_identity_service.Apperror.{external, ok}
use go_identity_service.Http.Middleware.{
  Request, Writer, returned, panicked, CorsConfig, serve, fresh, Handler,
}
use go_identity_service.Http.Middleware.Envelope.{Enveloped, Served, serve-Enveloped}
use go_identity_service.App.Config.{Config, there, load, validate, is_production}
use go_identity_service.App.Config.Production.{IsHardened, validate_iff, Accepted, load-Accepted}
use go_identity_service.App.Health.{HealthHandlers, ready, ready_iff}

abbrev broken : Handler ℕ
broken r w s = (panicked w, s)

abbrev from_page : Request
from_page = record {
  method = codes "GET";
  header = λ name. if str_eq name "Origin" then codes "https://x" else [];
  request_id = [];
}

abbrev origins : CorsConfig
origins = record {
  allowed_origins = codes "https://x" ∷ [];
  allowed_methods = codes "GET" ∷ codes "PUT" ∷ [];
  allowed_headers = codes "Authorization" ∷ [];
}

serve-Enveloped_example :
    (w : Writer) × (s : ℕ) × (serve (some (codes "id")) origins broken from_page fresh 7
      ≡ (returned w, s))
    × Enveloped (some (codes "id")) origins from_page w
    × Served (some (codes "id")) origins from_page broken 7 w s
serve-Enveloped_example =
    serve-Enveloped (some (codes "id")) origins from_page broken (λ q w s name h. refl) 7

abbrev config : Config
config = record {
  http = record {
    host = codes "0.0.0.0";
    port = pos 8080;
    read_timeout = pos 5;
    write_timeout = pos 10;
    idle_timeout = pos 60;
    read_header_timeout = pos 5;
    shutdown_timeout = pos 10;
  };
  grpc = record { host = codes "0.0.0.0"; port = pos 50051; shutdown_timeout = pos 10 };
  database = record {
    host = codes "db";
    port = pos 5432;
    name = codes "identity_service";
    user = codes "identity_service";
    password = codes "p";
    pool = record {
      max_cons = pos 10;
      min_cons = pos 10;
      max_con_life_time = pos 3600;
      max_con_idle_time = pos 1200;
      health_check_period = pos 60;
    };
    ssl = codes "verify-full";
  };
  app = record {
    name = codes "identity-service";
    version = codes "1";
    environment = codes "production";
  };
  auth = record {
    jwt_secret = codes "0123456789012345678901234567890123456789012345678901234567890123";
    access_token_ttl = pos 900;
    refresh_token_ttl = pos 1000;
  };
  redis = record { host = codes "redis"; port = pos 6379; password = []; db = pos 0 };
  kafka = record {
    brokers = codes "kafka:9092";
    outbox_topic = codes "outbox.events";
    producer_batch_max_bytes = pos 1048576;
    producer_linger = pos 10;
    consumer_group = codes "identity-service";
  };
  timeouts = record {
    database_query = pos 2;
    redis_command = pos 1;
    kafka_produce = pos 5;
    kafka_consume = pos 10;
  };
  cors = record {
    allowed_origins = codes "https://x";
    allowed_methods = codes "GET,PUT";
    allowed_headers = codes "Authorization";
  };
}

loads : load there (ok config) (ok config) (λ c. none) ≡ ok config
unfolding load validate codes text_eq len
loads = refl

load-Accepted_example : Accepted there (ok config) (ok config) (λ c. none) config
load-Accepted_example = load-Accepted there (ok config) (ok config) (λ c. none) loads

validate_iff_example : (validate config ≡ none) ↔ (is_production config ≡ true → IsHardened config)
validate_iff_example = validate_iff config

abbrev without_kafka : HealthHandlers
without_kafka = record { db = none; redis = none; kafka = some external; shutting_down = false }

ready_iff_example :
    (((ready without_kafka).code ≡ 200) ↔ (
      (without_kafka.shutting_down ≡ false)
      × (without_kafka.db ≡ none)
      × (without_kafka.redis ≡ none)
      × (without_kafka.kafka ≡ none)))
    × (((ready without_kafka).code ≡ 200) ⊎ ((ready without_kafka).code ≡ 503))
ready_iff_example = ready_iff without_kafka
