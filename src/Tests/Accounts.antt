-- ===== src/Tests/Accounts.antt =====
-- The user service on the sample installation.
use go_identity_service.Base.{some, sym, ap, ◌∙◌, subst, inl, inr, IsMember-cons}
use go_identity_service.User.Repository.{has_id}
use go_identity_service.User.Model.{cached_user_from_domain}
use go_identity_service.User.Cache.{user_key}
use go_identity_service.User.Cache.Coherence.{IsCoherent, user_key-injective}
use go_identity_service.User.Service.Caching.{get_user_transparent}
use go_identity_service.World.{CacheEntry}
use go_identity_service.User.Repository.{find_by_id, exists_by_email, update, without_hash}
use go_identity_service.Base.{
  find?, text_eq, any, update_where, codes, trim_space, to_lower, len, pos, [], ◌∷◌, ◌≡◌, ◌↔◌, refl,
  none,
}
use go_identity_service.Apperror.{Result, ok}
use go_identity_service.World.{◌>>=◌, pure, on_err, call, World, Tables}
use go_identity_service.World.Transaction.{AllOrNothing}
use go_identity_service.User.Validation.{normal_email, validate_user_input}
use go_identity_service.User.Validation.Bounds.{validate_user_input-IsValid, IsValid}
use go_identity_service.User.Model.{User}
use go_identity_service.User.Service.{
  UpdateUserInput, CacheConfig, get_user, create_user, create_user_with_profile, update_user,
}
use go_identity_service.User.Service.Updates.{Updated, update_user-Updated}
use go_identity_service.User.Service.Registration.{create_user_atomic, Accepted}
use go_identity_service.User.Service.Profiles.{create_user_with_profile_atomic, Enrolled}
use go_identity_service.Tests.Sample.{external, world, users, bob, bob_with_profile, ada}

create_user_atomic_example :
    AllOrNothing (Accepted external bob) world (create_user external users bob world)
create_user_atomic_example = create_user_atomic external users bob world

create_user_with_profile_atomic_example :
    AllOrNothing
      (Enrolled external bob_with_profile)
      world
      (create_user_with_profile external users bob_with_profile world)
create_user_with_profile_atomic_example =
    create_user_with_profile_atomic external users bob_with_profile world

validate_user_input-IsValid_example :
    (validate_user_input external ada.name ada.email ada.age ≡ none)
    ↔ IsValid external ada.name ada.email ada.age
validate_user_input-IsValid_example =
    validate_user_input-IsValid external ada.name ada.email ada.age

ada_is_valid : validate_user_input external ada.name ada.email ada.age ≡ none
unfolding validate_user_input codes trim_space len
ada_is_valid = refl

abbrev change : UpdateUserInput
change = record { name = codes " Ada L"; email = codes "ada@lovelace"; age = pos 37 }

abbrev changed : Result User × World
changed = update_user external users (pos 1) change world

abbrev ada_later : User
ada_later = record ada {
  name = codes "Ada L";
  email = codes "ada@lovelace";
  age = pos 37;
  password_hash = [];
  updated_at = 10;
}

abbrev tables_later : Tables
tables_later = record world.tables {
  users = record ada_later { password_hash = ada.password_hash } ∷ [];
}

changes : changed ≡ (ok ada_later, record world { tables = tables_later })
unfolding update_user ◌>>=◌ validate_user_input trim_space codes len normal_email to_lower pure
    on_err find_by_id call find? text_eq exists_by_email any update update_where without_hash
changes = refl

update_user-Updated_example : Updated external (pos 1) change world.tables tables_later ada_later
update_user-Updated_example = update_user-Updated external users (pos 1) change world changes

abbrev cache_config : CacheConfig
cache_config = record { prefix = codes "ids"; ttl = 60 }

-- Ada's entry, under her key.
abbrev cached_world : World
cached_world = record world {
  cache =
      record { key = user_key cache_config.prefix (pos 1); value = codes "cached"; expires_at = 70 }
      ∷ [];
}

ada_row : find? (has_id (pos 1)) world.tables.users ≡ some ada
unfolding find? has_id
ada_row = refl

cached_world-IsCoherent : IsCoherent external cache_config.prefix cached_world
unfolding cached_user_from_domain
cached_world-IsCoherent = record {
  entries = λ id e member at. elim (IsMember-cons member) [
    | inl same ↦
        let is_id =
          user_key-injective cache_config.prefix (pos 1) id
            (sym (ap (λ (c : CacheEntry). c.key) same) ∙ at) in
        (ada, subst (λ i. find? (has_id i) world.tables.users ≡ some ada) is_id ada_row, refl)
    | inr other ↦ elim other [ ]
  ];
}

get_user_transparent_example :
    (get_user external (record users { cache = some cache_config }) (pos 1) cached_world).0
    ≡ (get_user external (record users { cache = none }) (pos 1) cached_world).0
get_user_transparent_example =
    get_user_transparent external (pos 1) cached_world users cache_config cached_world-IsCoherent
      refl
