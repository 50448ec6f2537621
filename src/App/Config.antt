-- ===== src/App/Config.antt =====
-- internal/config/config.go. The file system, the reader cleanenv and the validator of the tags are
-- third parties: what they report is an argument.
pub mod Production
pub mod Database
use go_identity_service.Base.{
  ℕ, ltb, ◌==◌, ℤ, Text, codes, text_eq, len, is_empty, trim_space, format_int, any, Bool, true,
  false, ◌&&◌, ◌||◌, Option, none, some, List, [], ◌∷◌, ◌++◌, if◌then◌else◌,
}
use go_identity_service.Apperror.{Error, message, wrapped, external, Result, ok, err}

pub record HttpConfig : Type 0 where
  pub host : Text
  pub port : ℤ
  pub read_timeout : ℤ
  pub write_timeout : ℤ
  pub idle_timeout : ℤ
  pub read_header_timeout : ℤ
  pub shutdown_timeout : ℤ

pub record TimeoutsConfig : Type 0 where
  pub database_query : ℤ
  pub redis_command : ℤ
  pub kafka_produce : ℤ
  pub kafka_consume : ℤ

pub record PoolConfig : Type 0 where
  pub max_cons : ℤ
  pub min_cons : ℤ
  pub max_con_life_time : ℤ
  pub max_con_idle_time : ℤ
  pub health_check_period : ℤ

pub record DatabaseConfig : Type 0 where
  pub host : Text
  pub port : ℤ
  pub name : Text
  pub user : Text
  pub password : Text
  pub pool : PoolConfig
  pub ssl : Text

pub record GrpcConfig : Type 0 where
  pub host : Text
  pub port : ℤ
  pub shutdown_timeout : ℤ

pub record AppConfig : Type 0 where
  pub name : Text
  pub version : Text
  pub environment : Text

pub record AuthConfig : Type 0 where
  pub jwt_secret : Text
  pub access_token_ttl : ℤ
  pub refresh_token_ttl : ℤ

pub record RedisConfig : Type 0 where
  pub host : Text
  pub port : ℤ
  pub password : Text
  pub db : ℤ

pub record CorsConfig : Type 0 where
  pub allowed_origins : Text
  pub allowed_methods : Text
  pub allowed_headers : Text

pub record KafkaConfig : Type 0 where
  pub brokers : Text
  pub outbox_topic : Text
  pub producer_batch_max_bytes : ℤ
  pub producer_linger : ℤ
  pub consumer_group : Text

-- The sections of other packages and those for the log and the telemetry are left out.
pub record Config : Type 0 where
  pub http : HttpConfig
  pub grpc : GrpcConfig
  pub database : DatabaseConfig
  pub app : AppConfig
  pub auth : AuthConfig
  pub redis : RedisConfig
  pub kafka : KafkaConfig
  pub timeouts : TimeoutsConfig
  pub cors : CorsConfig

-- strings.Split at commas.
abbrev pub add_to_first : ℕ → List Text → List Text
add_to_first c [] = (c ∷ []) ∷ []
add_to_first c (part ∷ parts) = (c ∷ part) ∷ parts

unfoldable pub split_commas : Text → List Text
split_commas [] = [] ∷ []
split_commas (c ∷ s) =
    let rest = split_commas s in if c == 44 then [] ∷ rest else add_to_first c rest

unfoldable pub trimmed_items : List Text → List Text
trimmed_items [] = []
trimmed_items (part ∷ parts) =
    let rest = trimmed_items parts in
    if is_empty (trim_space part) then rest else trim_space part ∷ rest

-- splitCSV, which KafkaConfig.BrokerList repeats.
unfoldable pub split_csv : Text → List Text
unfolding split_commas trimmed_items
split_csv value = trimmed_items (split_commas value)

abbrev pub broker_list : KafkaConfig → List Text
broker_list c = split_csv c.brokers

-- net.JoinHostPort(host, strconv.Itoa(port)): a host with a colon or a percent sign is put in brackets.
abbrev needs_brackets : Text → Bool
needs_brackets host = any (λ c. c == 58 || c == 37) host

unfoldable pub join_host_port : Text → ℤ → Text
join_host_port host port =
    if needs_brackets host
    then codes "[" ++ host ++ codes "]:" ++ format_int port
    else host ++ codes ":" ++ format_int port

abbrev pub http_address : HttpConfig → Text
http_address h = join_host_port h.host h.port

abbrev pub grpc_address : GrpcConfig → Text
grpc_address g = join_host_port g.host g.port

abbrev pub redis_address : RedisConfig → Text
redis_address r = join_host_port r.host r.port

-- CORSConfig.Origins, Methods and Headers
abbrev pub origins : CorsConfig → List Text
origins c = split_csv c.allowed_origins

abbrev pub methods : CorsConfig → List Text
methods c = split_csv c.allowed_methods

abbrev pub headers : CorsConfig → List Text
headers c = split_csv c.allowed_headers

abbrev pub default_secret : Text
default_secret = codes "local-dev-secret-change-me-please-32"

abbrev pub is_production : Config → Bool
is_production c = text_eq c.app.environment (codes "production")

-- Config.Validate
unfoldable pub validate : Config → Option Error
validate c =
    if is_production c && is_empty c.database.password
    then some (message "database password is required in production")
    else if is_production c && text_eq c.auth.jwt_secret default_secret
    then some (message "auth jwt secret must be changed in production")
    else if is_production c && ltb (len c.auth.jwt_secret) 64
    then some (message "auth jwt secret must be at least 64 characters in production")
    else if is_production c && text_eq c.database.ssl (codes "disable")
    then some (message "database ssl must be enabled in production")
    else none

-- What os.Stat says of the file.
pub data Stat : Type 0 where
  there : Stat
  not_there : Stat
  unreadable : Error → Stat

abbrev pub wrap {ℓ} : {A : Type ℓ} → (Error → Error) → Result A → Result A
wrap f (ok a) = ok a
wrap f (err e) = err (f e)

-- readConfig, for the results of cleanenv.ReadConfig and cleanenv.ReadEnv
unfoldable pub read_config : Stat → Result Config → Result Config → Result Config
read_config there file env = wrap (wrapped "read config") file
read_config not_there file env = wrap (wrapped "read environment config") env
read_config (unreadable e) file env = err (wrapped "check config" e)

abbrev pub valid_or : Config → Option Error → Result Config
valid_or c none = ok c
valid_or c (some e) = err (wrapped "validate config rules" e)

abbrev pub fields_valid_or : Config → Option Error → Result Config
fields_valid_or c none = valid_or c (validate c)
fields_valid_or c (some e) = err (wrapped "validate config fields" e)

abbrev pub checked : (Config → Option Error) → Result Config → Result Config
checked check (ok c) = fields_valid_or c (check c)
checked check (err e) = err e

-- Load, for the results of the validator
unfoldable pub load : Stat → Result Config → Result Config → (Config → Option Error) → Result Config
unfolding read_config validate
load stat file env check = checked check (read_config stat file env)
