-- ===== src/Http/Response/Failures.antt =====
-- Which responses say that a request failed, and that no handler ran where the body was not read.
use go_identity_service.Base.{Text, ◌≡◌, refl, ap, ◌∙◌, Bool, true, false, Option, none, some}
use go_identity_service.Apperror.{Error, Fields, PublicError, as_public, as_validation, ok}
use go_identity_service.External.{External}
use go_identity_service.World.{World, M, pure}
use go_identity_service.World.Rules.{pure-ok}
use go_identity_service.Http.Response.{
  Response, is_failure, send_public, send_first, send_error, send_validation_error, handle_error,
  Reading, unreadable, readable, DecodeError, syntax_error, unexpected_eof, type_error,
  end_of_input, max_bytes_error, other_error, unknown_field, write_decode_error, decode_json,
}

sent-is_failure : (o : Option PublicError) → is_failure (send_public o).body ≡ true
unfolding send_error
sent-is_failure (some p) = refl
sent-is_failure none = refl

first-is_failure : (o : Option Fields) (e : Error) → is_failure (send_first o e).body ≡ true
unfolding send_validation_error
first-is_failure (some fields) e = refl
first-is_failure none e = sent-is_failure (as_public e)

pub is_failure-handle_error : (e : Error) → is_failure (handle_error e).body ≡ true
unfolding handle_error
is_failure-handle_error e = first-is_failure (as_validation e) e

true-false : {b : Bool} → b ≡ true → b ≡ false → ⊥
true-false p q = cc

-- A response that says so is none that does not.
pub not_refused :
    (q : Response) (w : World) {r : Response} {w' : World}
    → is_failure q.body ≡ true
    → pure q w ≡ (ok r, w')
    → is_failure r.body ≡ false
    → ⊥
not_refused q w p h k =
    true-false p (ap (λ (y : Response). is_failure y.body) (pure-ok q w h).0 ∙ k)

module _ (x : External) where
  unknown-is_failure : (o : Option Text) → is_failure (unknown_field x o).body ≡ true
  unfolding send_error
  unknown-is_failure (some field) = refl
  unknown-is_failure none = refl

  decode-is_failure : (e : DecodeError) → is_failure (write_decode_error x e).body ≡ true
  unfolding write_decode_error send_error
  decode-is_failure syntax_error = refl
  decode-is_failure unexpected_eof = refl
  decode-is_failure (type_error field) = refl
  decode-is_failure end_of_input = refl
  decode-is_failure max_bytes_error = refl
  decode-is_failure (other_error text) = unknown-is_failure _

  -- A body that is not exactly one JSON value is answered with an error, and the handler does not run.
  pub decode_json-ok :
      {A : Type 0} (body : Reading A) (next : A → M Response) (w : World) {r : Response}
      {w' : World}
      → decode_json x body next w ≡ (ok r, w')
      → is_failure r.body ≡ false
      → (a : A) × (body ≡ readable a (some end_of_input)) × (next a w ≡ (ok r, w'))
  unfolding decode_json send_error
  decode_json-ok (unreadable e) next w h k =
      absurd (not_refused (write_decode_error x e) w (decode-is_failure e) h k)
  decode_json-ok (readable a (some end_of_input)) next w h k = (a, refl, h)
  decode_json-ok (readable a none) next w h k = absurd (not_refused (send_error _ _ _) w refl h k)
  decode_json-ok (readable a (some syntax_error)) next w h k =
      absurd (not_refused (send_error _ _ _) w refl h k)
  decode_json-ok (readable a (some unexpected_eof)) next w h k =
      absurd (not_refused (send_error _ _ _) w refl h k)
  decode_json-ok (readable a (some (type_error f))) next w h k =
      absurd (not_refused (send_error _ _ _) w refl h k)
  decode_json-ok (readable a (some max_bytes_error)) next w h k =
      absurd (not_refused (send_error _ _ _) w refl h k)
  decode_json-ok (readable a (some (other_error t))) next w h k =
      absurd (not_refused (send_error _ _ _) w refl h k)
