-- ===== src/Tests/Listing.antt =====
-- Listing the users of the sample installation.
use go_identity_service.Base.{
  IsMember-cons, Perm, ◌++◌, ◌≤◌, List, length, map, arith, inl, inr, sym, ◌∙◌,
}
use go_identity_service.User.Model.{User}
use go_identity_service.User.Listing.Pages.{wanted}
use go_identity_service.User.Listing.Walks.{
  Tells, Walk, done, page, page_request, ranked, pages_complete,
}
use go_identity_service.Base.{
  pos, codes, trim_space, to_lower, [], map, filter, drop, sort_with, insert_with, ◌≡◌, refl,
}
use go_identity_service.Apperror.{Result, ok}
use go_identity_service.World.{World, ◌>>=◌, pure, on_err, fail, call, take_answer}
use go_identity_service.User.Repository.{without_hash, users_order_by}
use go_identity_service.User.Validation.{normal_email}
use go_identity_service.User.Listing.{
  ListUsersFilter, ListUsersResult, list_users, list, matches, count_users, select_page, listing,
}
use go_identity_service.User.Listing.Pages.{IsPage, list_users-IsPage}
use go_identity_service.Tests.Sample.{external, world}

abbrev request : ListUsersFilter
request = record { limit = pos 20; offset = pos 0; email = []; sort = codes "email_asc" }

listed : Result ListUsersResult × World
listed = list_users external request world

found : ListUsersResult
found = record { users = map without_hash world.tables.users; total = 1 }

lists : listed ≡ (ok found, record world { scans = 1 })
unfolding listed found list_users list count_users select_page listing matches call take_answer
    ◌>>=◌ pure on_err fail normal_email trim_space to_lower sort_with insert_with filter drop
    users_order_by
lists = refl

list_users-IsPage_example :
    IsPage external request world.tables found × (world.tables ≡ world.tables)
unfolding listed
list_users-IsPage_example = list_users-IsPage external (λ a b h. refl) request world lists

walked : Result ListUsersResult × World
walked = list_users external (page_request 20 0 [] (codes "id_asc")) world

walks : walked ≡ (ok found, record world { scans = 1 })
unfolding walked found list_users list count_users select_page listing matches call take_answer
    ◌>>=◌ pure on_err fail normal_email trim_space to_lower sort_with insert_with filter drop
    users_order_by
walks = refl

walk :
    Walk external 20 [] (codes "id_asc") 0 20 world (found.users ++ []) (record world { scans = 1 })
unfolding walked
walk = page walks done

abbrev all_users : List User
all_users = wanted external (page_request 20 0 [] (codes "id_asc")) world.tables.users

enough : length all_users ≤ 20
unfolding matches filter normal_email trim_space to_lower
enough = omega arith

told_apart : Tells external (codes "id_asc") all_users
unfolding matches filter normal_email trim_space to_lower
told_apart = record {
  apart = λ a b m n p q. elim (IsMember-cons m) [
    | inl e ↦ elim (IsMember-cons n) [ inl f ↦ e ∙ sym f | inr none_left ↦ elim none_left [ ] ]
    | inr none_left ↦ elim none_left [ ]
  ];
}

pages_complete_example :
    Perm (found.users ++ []) (map without_hash all_users)
    × (found.users ++ []
        ≡ map without_hash (ranked external [] (codes "id_asc") world.tables.users))
pages_complete_example =
    pages_complete external (λ a b h. refl) (λ a b c p q. refl) 20 [] (codes "id_asc") 20 world walk
      enough told_apart
