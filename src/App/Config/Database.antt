-- ===== src/App/Config/Database.antt =====
-- LoadDatabase of internal/config/config.go, which the migrations use.
use go_identity_service.Base.{◌≡◌, refl, ap, Option, none, some}
use go_identity_service.Apperror.{Error, wrapped, Result, ok, err}
use go_identity_service.App.Config.{
  Config, DatabaseConfig, Stat, there, not_there, unreadable, wrap, read_config, load, checked,
  fields_valid_or, valid_or, validate,
}

abbrev valid_database :
    (DatabaseConfig → Option Error) → Result DatabaseConfig → Result DatabaseConfig
valid_database check (err e) = err e
valid_database check (ok d) = elim (check d) [
  | none ↦ ok d
  | some e ↦ err (wrapped "validate config fields" e)
]

-- LoadDatabase, for the results of cleanenv.ReadConfig, cleanenv.ReadEnv and the validator
unfoldable pub load_database :
    Stat
    → Result DatabaseConfig
    → Result DatabaseConfig
    → (DatabaseConfig → Option Error)
    → Result DatabaseConfig
load_database there file env check = valid_database check (wrap (wrapped "read config") file)
load_database not_there file env check =
    valid_database check (wrap (wrapped "read environment config") env)
load_database (unreadable e) file env check = err (wrapped "check config" e)

abbrev database_of : Result Config → Result DatabaseConfig
database_of (ok c) = ok c.database
database_of (err e) = err e

valid_or-ok : (c' : Config) (o : Option Error) (c : Config) → valid_or c' o ≡ ok c → c' ≡ c
valid_or-ok c' none c h = cc
valid_or-ok c' (some e) c h = cc

fields_valid_or-ok :
    (c' : Config) (o : Option Error) (c : Config)
    → fields_valid_or c' o ≡ ok c
    → (o ≡ none) × (c' ≡ c)
fields_valid_or-ok c' none c h = (refl, valid_or-ok c' (validate c') c h)
fields_valid_or-ok c' (some e) c h = cc

database_of-checked :
    (check : Config → Option Error) (check_database : DatabaseConfig → Option Error)
    → ((c : Config) → check c ≡ none → check_database c.database ≡ none)
    → (f : Error → Error) (r : Result Config) (c : Config) → checked check (wrap f r) ≡ ok c
    → valid_database check_database (wrap f (database_of r)) ≡ ok c.database
database_of-checked check check_database part f (err e) c h = cc
database_of-checked check check_database part f (ok c') c h =
    let (accepted, same) = fields_valid_or-ok c' (check c') c h in
    rw (part c' accepted) (ap (λ (y : Config). ok y.database) same)

-- The service and the migrations read one database configuration: where the validator accepts the part of
-- what it accepts, a file that Load accepts is one that LoadDatabase accepts, with the same result.
load_database-load :
    (stat : Stat) (file env : Result Config) (check : Config → Option Error)
    (check_database : DatabaseConfig → Option Error)
    → ((c : Config) → check c ≡ none → check_database c.database ≡ none)
    → (c : Config) → load stat file env check ≡ ok c
    → load_database stat (database_of file) (database_of env) check_database ≡ ok c.database
unfolding load read_config load_database
load_database-load there file env check cd part c h = database_of-checked check cd part _ file c h
load_database-load not_there file env check cd part c h =
    database_of-checked check cd part _ env c h
load_database-load (unreadable e) file env check cd part c h = cc
