-- ===== src/App/Config/Production.antt =====
-- Which configurations the service starts with.
use go_identity_service.Base.{
  ltb, ◌≤◌, Text, codes, text_eq, text_eq_iff, len, is_empty, ◌≡◌, ◌≢◌, ◌↔◌, refl, ap, ◌⊎◌, inl,
  inr, Bool, true, false, ◌&&◌, Bool-cases, Option, none, some, [], ◌∷◌, arith, if◌then◌else◌,
}
use go_identity_service.Apperror.{Error, Result, ok, err}
use go_identity_service.App.Config.{
  Config, Stat, there, not_there, unreadable, validate, load, read_config, valid_or,
  fields_valid_or, checked, default_secret, is_production,
}

-- What an installation in production needs.
pub record IsHardened (c : Config) : Type 0 where
  pub password : c.database.password ≢ []
  pub own_secret : c.auth.jwt_secret ≢ default_secret
  pub long_secret : 64 ≤ len c.auth.jwt_secret
  pub ssl : c.database.ssl ≢ codes "disable"

text_neq : (s t : Text) → text_eq s t ≡ false → s ≢ t
text_neq s t h e = let k = (text_eq_iff s t).1 e in cc

not_empty : (s : Text) → is_empty s ≡ false → s ≢ []
not_empty [] h e = cc
not_empty (c ∷ s) h e = cc

step :
    (b : Bool) (e : Error) (o : Option Error)
    → (if b then some e else o) ≡ none
    → (b ≡ false) × (o ≡ none)
step true e o h = cc
step false e o h = (refl, h)

under : (p b : Bool) → p ≡ true → (p && b) ≡ false → b ≡ false
under p b h k = ground (arith, h, k)

validate-IsHardened : (c : Config) → validate c ≡ none → is_production c ≡ true → IsHardened c
unfolding validate
validate-IsHardened c h p =
    let (a, h1) = step _ _ _ h in
    let (b, h2) = step _ _ _ h1 in
    let (d, h3) = step _ _ _ h2 in
    let (e, h4) = step _ _ _ h3 in
    record {
      password = not_empty c.database.password (under _ _ p a);
      own_secret = text_neq c.auth.jwt_secret default_secret (under _ _ p b);
      long_secret = let short = under _ _ p d in ground (arith, short);
      ssl = text_neq c.database.ssl (codes "disable") (under _ _ p e);
    }

text_neq-eq : (s t : Text) → s ≢ t → text_eq s t ≡ false
text_neq-eq s t n = elim (Bool-cases (text_eq s t)) [
  | inl same ↦ absurd (n ((text_eq_iff s t).0 same))
  | inr other ↦ other
]

not_empty-eq : (s : Text) → s ≢ [] → is_empty s ≡ false
not_empty-eq [] n = absurd (n refl)
not_empty-eq (c ∷ s) n = refl

IsHardened-validate : (c : Config) → (is_production c ≡ true → IsHardened c) → validate c ≡ none
unfolding validate
IsHardened-validate c k = elim (Bool-cases (is_production c)) [
  | inr other ↦ rw other refl
  | inl p ↦
      let h = k p in
      let long : ltb (len c.auth.jwt_secret) 64 ≡ false = (let l = h.long_secret in ground arith) in
      rw
        (
          p,
          not_empty-eq c.database.password h.password,
          text_neq-eq c.auth.jwt_secret default_secret h.own_secret,
          long,
          text_neq-eq c.database.ssl (codes "disable") h.ssl,
        )
        refl
]

-- Validate accepts exactly the configurations that either are not for production, or have a database
-- password, a JWT secret of at least 64 bytes that is not the default one, and TLS to the database not
-- disabled.
pub validate_iff : (c : Config) → (validate c ≡ none) ↔ (is_production c ≡ true → IsHardened c)
validate_iff c = (validate-IsHardened c, IsHardened-validate c)

-- A configuration that the service starts with: where it is from, and what was checked.
pub record Accepted (stat : Stat) (file env : Result Config) (check : Config → Option Error)
    (c : Config) : Type 0 where
  pub source : ((stat ≡ there) × (file ≡ ok c)) ⊎ ((stat ≡ not_there) × (env ≡ ok c))
  pub fields : check c ≡ none
  pub hardened : is_production c ≡ true → IsHardened c

read-ok :
    (stat : Stat) (file env : Result Config) {c : Config}
    → read_config stat file env ≡ ok c
    → ((stat ≡ there) × (file ≡ ok c)) ⊎ ((stat ≡ not_there) × (env ≡ ok c))
unfolding read_config
read-ok there (ok f) env h = inl (refl, h)
read-ok there (err e) env h = cc
read-ok not_there file (ok v) h = inr (refl, h)
read-ok not_there file (err e) h = cc
read-ok (unreadable e) file env h = cc

valid_or-ok :
    (c : Config) (o : Option Error) {d : Config} → valid_or c o ≡ ok d → (c ≡ d) × (o ≡ none)
valid_or-ok c none h = (ground arith, refl)
valid_or-ok c (some e) h = cc

fields-ok :
    (c : Config) (o : Option Error) {d : Config}
    → fields_valid_or c o ≡ ok d
    → (c ≡ d) × (o ≡ none) × (validate c ≡ none)
fields-ok c none h = let (p, q) = valid_or-ok c (validate c) h in (p, refl, q)
fields-ok c (some e) h = cc

checked-ok :
    (check : Config → Option Error) (r : Result Config) {d : Config}
    → checked check r ≡ ok d
    → (r ≡ ok d) × (check d ≡ none) × (validate d ≡ none)
checked-ok check (ok c) h =
    let (p, q, v) = fields-ok c (check c) h in (ap ok p, rw p at q, rw p at v)
checked-ok check (err e) h = cc

-- A configuration that Load returns was read from the file, or from the environment when there is no
-- file; the validator of its tags found no fault; and in production it has a database password, a JWT
-- secret of at least 64 bytes that is not the default one, and TLS to the database not disabled.
pub load-Accepted :
    (stat : Stat) (file env : Result Config) (check : Config → Option Error) {c : Config}
    → load stat file env check ≡ ok c
    → Accepted stat file env check c
unfolding load
load-Accepted stat file env check {c} h =
    let (r, fields, rules) = checked-ok check (read_config stat file env) h in
    record {
      source = read-ok stat file env r;
      fields = fields;
      hardened = validate-IsHardened c rules;
    }
