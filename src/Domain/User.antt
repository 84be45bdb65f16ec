-- ===== src/Domain/User.antt =====
-- User of internal/domain/models.go, and its Validate.
use Prim.Native.String.{len}
use stripe_payment_service.Prelude.{
  String, Bool, true, false, not, ◌||◌, Option, none, some, List, [], ◌∷◌, ◌==◌, starts_with,
  trim_space, ltb, nat_eq, any_where, bytes, is_some, if◌then◌else◌,
}
use stripe_payment_service.Domain.Errors.{FieldError, reject_when, collect}
use stripe_payment_service.Domain.Time.{Time}
use stripe_payment_service.Domain.Subscription.{Uuid}

pub record User : Type 0 where
  pub id : Uuid
  pub email : String
  pub email_verified_at : Option Time
  pub password_hash : Option String
  pub full_name : Option String
  pub stripe_customer_id : Option String
  pub metadata : List (String × String)
  pub created_at : Time
  pub deleted_at : Option Time

-- IsDeleted
abbrev pub is_deleted : User → Bool
is_deleted u = is_some u.deleted_at

-- The switch on a trimmed address.
abbrev check_email : String → List FieldError
check_email email =
    if email == ""
    then reject_when true "email" "is required"
    else if ltb (len email) 3 || ltb 320 (len email)
    then reject_when true "email" "must be between 3 and 320 characters"
    else reject_when
        (not (any_where (nat_eq b'@') (bytes email))
          || any_where (λ c. nat_eq c 0x20 || (nat_eq c 9 || nat_eq c 10)) (bytes email))
        "email" "is not a valid address"

abbrev bad_customer_id : Option String → Bool
bad_customer_id none = false
bad_customer_id (some c) = not (starts_with c "cus_")

-- User.Validate: the user with the address trimmed in place, and the rejections.
unfoldable pub validate : User → User × List FieldError
validate u =
    let email = trim_space u.email in
    (
      record u { email = email },
      collect (
          check_email email
          ∷ reject_when (bad_customer_id u.stripe_customer_id) "stripe_customer_id"
              "must begin with cus_"
          ∷ reject_when (any_where (λ kv. trim_space kv.0 == "") u.metadata) "metadata"
              "keys must not be blank"
          ∷ []),
    )
