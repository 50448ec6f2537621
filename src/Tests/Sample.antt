-- ===== src/Tests/Sample.antt =====
-- A small installation: stand-ins for the third parties, a state of the service, and its requests.
use go_identity_service.Base.{
  ℕ, pos, Text, text_eq, codes, Bool, true, false, none, some, [], ◌∷◌, ◌++◌,
}
use go_identity_service.External.{External}
use go_identity_service.World.{World, Tables}
use go_identity_service.User.Model.{User, CachedUser, role_user}
use go_identity_service.User.Service as Users
use go_identity_service.Auth.Model.{RefreshToken, Claims}
use go_identity_service.Auth.Service as Sessions
use go_identity_service.Outbox.Model as OutboxModel
use go_identity_service.Outbox.Publisher.{record_of}
use go_identity_service.Http.Users as UserHandler
use go_identity_service.Kafka.Model.{Record}

abbrev pub hash_is_of : Text → Text → Bool
hash_is_of [] password = false
hash_is_of (salt ∷ hashed) password = text_eq hashed password

abbrev pub ada : User
ada = record {
  id = pos 1;
  name = codes "Ada";
  email = codes "ada@x";
  age = pos 36;
  role = role_user;
  password_hash = 0 ∷ codes "secret";
  created_at = 5;
  updated_at = 5;
}

abbrev pub cached_ada : CachedUser
cached_ada = record {
  id = pos 1;
  name = ada.name;
  email = ada.email;
  age = ada.age;
  role = ada.role;
  created_at = 5;
  updated_at = 5;
}

abbrev pub external : External
external = record {
  bcrypt_generate = λ cost salt password. some (salt ∷ password);
  bcrypt_compare = hash_is_of;
  random_token = λ n. some (codes "token" ++ n ∷ []);
  sha256_hex = λ t. codes "h" ++ t;
  numeric_date = λ t. t;
  sign = λ secret claims. some (codes "jwt." ++ claims.subject);
  parse = λ secret issuer now token. none;
  proto_marshal = λ m. some (codes "user");
  proto_unmarshal =
      λ bytes. some (record { user_id = pos 1; email = codes "ada@x"; role = role_user });
  encode_cached = λ u. some (codes "cached");
  decode_cached = λ raw. some cached_ada;
  encode_audit = λ m. some (codes "audit");
  parse_address = λ address. true;
  unicode_lower = λ rune. rune;
  error_text = λ e. codes "failed";
  ilike = λ value pattern. true;
  collate_leb = λ a b. true;
  rank = λ n u. n;
  quote = λ t. t;
  split_host = λ address. some address;
  partition_of = λ key. 0;
}

abbrev pub token : RefreshToken
token = record {
  id = pos 1;
  user_id = pos 1;
  token_hash = codes "htoken";
  expires_at = 100;
  revoked_at = none;
  created_at = 5;
}

-- The event of the user's registration, as the worker has locked it.
abbrev pub event : OutboxModel.Event
event = record {
  id = pos 1;
  event_type = OutboxModel.event_type_user_registered;
  aggregate_type = OutboxModel.aggregate_user;
  aggregate_id = codes "1";
  payload = codes "user";
  content_type = OutboxModel.content_type_protobuf;
  proto_message = OutboxModel.proto_message_user_registered;
  event_version = OutboxModel.event_version_v1;
  status = OutboxModel.processing;
  attempts = 1;
  last_error = none;
  locked_at = some 6;
  processed_at = none;
  created_at = 5;
}

abbrev pub tables : Tables
tables = record {
  users = ada ∷ [];
  user_profiles = [];
  refresh_tokens = token ∷ [];
  outbox_events = event ∷ [];
  processed_kafka_events = [];
  user_audit_events = [];
}

abbrev pub world : World
world = record {
  tables = tables;
  sequences = record { user_id = 2; profile_id = 1; token_id = 2; event_id = 2; audit_id = 1 };
  cache = [];
  topic = [];
  committed = λ p. 0;
  clock = 10;
  tx_started = none;
  delays = 1 ∷ 2 ∷ [];
  entropy = 7;
  scans = 0;
  answers = [];
}

abbrev pub users : Users.Service
users = record { has_tx_factory = true; cache = none }

abbrev pub bob : Users.CreateUserInput
bob = record {
  name = codes " Bob";
  email = codes "Bob@x ";
  age = pos 40;
  password = codes "password";
}

abbrev pub bob_with_profile : Users.CreateUserWithProfileInput
bob_with_profile = record {
  name = codes "Bob";
  email = codes "bob@x";
  age = pos 40;
  password = codes "password";
  bio = codes "hi";
}

abbrev pub sessions : Sessions.Service
sessions = record {
  tokens = record { secret = codes "s"; ttl = 900; issuer = codes "i" };
  refresh_token_ttl = 1000;
}

abbrev pub signup : Sessions.RegisterRequest
signup = record {
  name = codes "Bob";
  email = codes "bob@x";
  age = pos 40;
  password = codes "password";
}

abbrev pub published : ℕ → ℕ → Record
published partition offset = record_of (codes "users") partition offset event

-- A JWT library that accepts every token, as Ada's.
abbrev pub ada_claims : Claims
ada_claims = record {
  user_id = pos 1;
  email = codes "ada@x";
  role = role_user;
  issuer = codes "i";
  subject = codes "1";
  issued_at = 5;
  expires_at = 100;
}

abbrev pub accepting : External
accepting = record external { parse = λ secret issuer now token. some ada_claims }

abbrev pub user_handler : UserHandler.Handler
user_handler = record {
  service = users;
  check_create = λ req. [];
  check_update = λ req. [];
  check_with_profile = λ req. [];
  check_list = λ req. [];
}
