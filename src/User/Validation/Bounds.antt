-- ===== src/User/Validation/Bounds.antt =====
-- What validateUserInput of internal/user/service.go accepts.
use go_identity_service.Base.{
  ◌≤◌, ℤ, pos, negsuc, int_leb, Text, len, is_empty, trim_space, ◌≡◌, refl, ◌↔◌, true, false, none,
  [], ◌∷◌, ◌++◌, arith,
}
use go_identity_service.Apperror.{Fields}
use go_identity_service.External.{External}
use go_identity_service.User.Validation.{
  name_fields, email_fields, age_fields, error_of_fields, validate_user_input,
}

module _ (x : External) where
  pub record IsValid (name email : Text) (age : ℤ) : Type 0 where
    pub name_given : is_empty (trim_space name) ≡ false
    pub name_min : 2 ≤ len name
    pub name_max : len name ≤ 100
    pub email_given : is_empty (trim_space email) ≡ false
    pub email_max : len email ≤ 255
    pub email_parses : x.parse_address email ≡ true
    pub age_min : int_leb (pos 0) age ≡ true
    pub age_max : int_leb age (pos 150) ≡ true

  no_fields :
      (xs ys zs : Fields)
      → error_of_fields (xs ++ ys ++ zs) ≡ none
      → (xs ≡ []) × (ys ≡ []) × (zs ≡ [])
  no_fields [] [] [] h = (refl, refl, refl)
  no_fields [] [] (z ∷ zs) h = cc
  no_fields [] (y ∷ ys) zs h = cc
  no_fields (x' ∷ xs) ys zs h = cc

  -- validateUserInput accepts exactly the names of 2 to 100 bytes that are not blank, the addresses
  -- of at most 255 bytes that parse and are not blank, and the ages from 0 to 150.
  pub validate_user_input-IsValid :
      (name email : Text) (age : ℤ)
      → (validate_user_input x name email age ≡ none) ↔ IsValid name email age
  unfolding validate_user_input
  validate_user_input-IsValid name email age = (sound, complete)
    where
      name_sound :
          name_fields name ≡ []
          → (is_empty (trim_space name) ≡ false) × (2 ≤ len name) × (len name ≤ 100)
      name_sound h = ground arith

      email_sound :
          email_fields x email ≡ []
          → (is_empty (trim_space email) ≡ false)
            × (len email ≤ 255)
            × (x.parse_address email ≡ true)
      email_sound h = ground arith

      age_sound :
          (a : ℤ) → age_fields a ≡ [] → (int_leb (pos 0) a ≡ true) × (int_leb a (pos 150) ≡ true)
      age_sound (pos n) h = ground arith
      age_sound (negsuc n) h = ground arith

      sound : validate_user_input x name email age ≡ none → IsValid name email age
      sound h =
          let (n, e, a) = no_fields (name_fields name) (email_fields x email) (age_fields age) h in
          let (n1, n2, n3) = name_sound n in
          let (e1, e2, e3) = email_sound e in
          let (a1, a2) = age_sound age a in
          record {
            name_given = n1;
            name_min = n2;
            name_max = n3;
            email_given = e1;
            email_max = e2;
            email_parses = e3;
            age_min = a1;
            age_max = a2;
          }

      age_complete :
          (a : ℤ) → int_leb (pos 0) a ≡ true → int_leb a (pos 150) ≡ true → age_fields a ≡ []
      age_complete (pos n) h k = ground arith
      age_complete (negsuc n) h k = ground arith

      complete : IsValid name email age → validate_user_input x name email age ≡ none
      complete v = ground (arith, age_complete age v.age_min v.age_max)
