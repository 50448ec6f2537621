-- ===== src/Tests/Consistency.antt =====
-- A sequence of requests on the sample installation.
use go_identity_service.Base.{
  pos, codes, [], ◌∷◌, any, ◌≡◌, refl, IsMember, IsMember-cons, inl, inr, sym, ap, ◌∙◌, true, List,
}
use go_identity_service.User.Model.{User, role_is_valid}
use go_identity_service.User.Repository.{has_id}
use go_identity_service.Auth.Model.{RefreshToken}
use go_identity_service.Consistency.{IsConsistent}
use go_identity_service.Consistency.Operations.{
  Request, create_user, refresh, logout, delete_user, run, run-IsConsistent,
}
use go_identity_service.Tests.Sample.{external, world, users, sessions, bob, ada}

only : {A : Type 0} {x y : A} → IsMember x (y ∷ []) → x ≡ y
only m = elim (IsMember-cons m) [ inl e ↦ e | inr n ↦ elim n [ ] ]

ada_role : role_is_valid ada.role ≡ true
unfolding role_is_valid
ada_role = refl

has_ada : any (has_id (pos 1)) (ada ∷ []) ≡ true
unfolding any has_id
has_ada = refl

world_is_consistent : IsConsistent world.tables
world_is_consistent = record {
  emails = λ a b ma mb e. ap (λ (y : User). y.id) (only ma ∙ sym (only mb));
  roles = λ a m. rw (only m) ada_role;
  profiles = λ p m. elim m [ ];
  tokens = λ r m. rw (only m) has_ada;
  hashes = λ a b ma mb e. ap (λ (y : RefreshToken). y.id) (only ma ∙ sym (only mb));
}

abbrev requests : List Request
requests =
    create_user bob ∷ refresh (codes "token") ∷ logout (codes "token") ∷ delete_user (pos 1) ∷ []

run-IsConsistent_example : IsConsistent (run external users sessions requests world).tables
run-IsConsistent_example =
    run-IsConsistent external users sessions requests world world_is_consistent
