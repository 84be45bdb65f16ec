-- ===== src/Repository/Users.antt =====
-- internal/repository/postgres/user_repo.go: the reads and the writes of the table `users`.
use stripe_payment_service.Prelude.{
  ℕ, suc, String, Bool, false, not, ◌&&◌, Option, none, some, List, [], ◌∷◌, ◌==◌, nat_eq,
  any_where, trim_space, if◌then◌else◌,
}
use stripe_payment_service.Prelude.Table.{update_where}
use stripe_payment_service.Domain.Errors.{
  Result, ok, err, Failure, failure, map_error, DriverError, no_rows, pg, validation,
  validation_result,
}
use stripe_payment_service.Domain.Time.{Time}
use stripe_payment_service.Domain.Subscription.{Uuid}
use stripe_payment_service.Domain.User
use stripe_payment_service.Domain.User.{is_deleted}
use stripe_payment_service.Stripe.Objects.{Platform}
use stripe_payment_service.Run.{Run, raise, statement}

-- The first row that satisfies `p`. The reads below ask for a unique key.
unfoldable pub first_where : {R : Type 0} → (R → Bool) → List R → Option R
first_where p [] = none
first_where p (r ∷ t) = let rest = first_where p t in if p r then some r else rest

abbrev pub found : String → Option User.User → Result User.User
found op none = err (map_error op no_rows)
found op (some u) = ok u

-- GetUserByID
unfoldable pub get_user_by_id : Uuid → Run User.User
unfolding first_where
get_user_by_id id = statement "get user by id" λ now w.
    (found "get user by id" (first_where (λ u. nat_eq u.id id && not (is_deleted u)) w.users), w)

abbrev has_customer : String → User.User → Bool
has_customer customer u = elim u.stripe_customer_id [ none ↦ false | some c ↦ c == customer ]

-- GetUserByStripeCustomerID
unfoldable pub get_user_by_stripe_customer_id : String → Run User.User
unfolding first_where
get_user_by_stripe_customer_id customer = statement "get user by stripe customer id" λ now w. (
  found "get user by stripe customer id"
      (first_where (λ u. has_customer customer u && not (is_deleted u)) w.users),
  w,
)

-- GetUserByEmail. The column compares addresses as `same_email` does.
unfoldable pub get_user_by_email : Platform → String → Run User.User
unfolding first_where
get_user_by_email p email = statement "get user by email" λ now w. (
  found "get user by email"
      (first_where (λ u. p.same_email u.email (trim_space email) && not (is_deleted u)) w.users),
  w,
)

abbrev duplicate_email : DriverError
duplicate_email =
    pg "23505" "uq_users_email_active" "duplicate key value violates unique constraint"
      "ERROR: duplicate key value violates unique constraint (SQLSTATE 23505)"

abbrev duplicate_customer : DriverError
duplicate_customer =
    pg "23505" "uq_users_stripe_customer_id" "duplicate key value violates unique constraint"
      "ERROR: duplicate key value violates unique constraint (SQLSTATE 23505)"

-- A live user whose id is `id`, the WHERE of the UPDATE.
abbrev is_target : Uuid → User.User → Bool
is_target id u = nat_eq u.id id && not (is_deleted u)

abbrev same_customer : Option String → User.User → Bool
same_customer none u = false
same_customer (some customer) u = has_customer customer u

-- The columns that the UPDATE sets.
abbrev set_fields : User.User → User.User → User.User
set_fields u row = record row {
  email = u.email;
  email_verified_at = u.email_verified_at;
  password_hash = u.password_hash;
  full_name = u.full_name;
  stripe_customer_id = u.stripe_customer_id;
  metadata = u.metadata;
}

-- The UPDATE of UpdateUser, against the two unique indices of the table: the address of a live user,
-- compared as the database compares it, and the customer of any user.
unfoldable pub update_row :
    Platform → User.User → List User.User → Result (Unit {0}) × List User.User
update_row p u t =
    if not (any_where (is_target u.id) t)
    then (err (map_error "update user" no_rows), t)
    else if any_where
        (λ x. not (nat_eq x.id u.id) && (not (is_deleted x) && p.same_email x.email u.email)) t
    then (err (map_error "update user" duplicate_email), t)
    else if any_where (λ x. not (nat_eq x.id u.id) && same_customer u.stripe_customer_id x) t
    then (err (map_error "update user" duplicate_customer), t)
    else (ok tt, update_where (is_target u.id) (set_fields u) t)

abbrev missing_id : Failure
missing_id = failure validation "id: is required for update"

-- UpdateUser
unfoldable pub update_user : Platform → User.User → Run Unit
update_user p raw =
    let (u, errors) = User.validate raw in
    elim (validation_result errors) [
      | some e ↦ raise e
      | none ↦
          if nat_eq u.id 0
          then raise missing_id
          else statement "update user"
              λ now w. let (r, t) = update_row p u w.users in (r, record w { users = t })
    ]

-- The INSERT of CreateUser, against the same two indices. The database chooses the id.
unfoldable pub insert_user :
    Platform → Uuid → Time → User.User → List User.User → Result User.User × List User.User
insert_user p id now u t =
    if any_where (λ x. not (is_deleted x) && p.same_email x.email u.email) t
    then (err (map_error "create user" duplicate_email), t)
    else if any_where (same_customer u.stripe_customer_id) t
    then (err (map_error "create user" duplicate_customer), t)
    else (
      ok (record u { id = id; created_at = now }),
      record u { id = id; created_at = now; deleted_at = none } ∷ t,
    )

-- CreateUser, where `new_id` is the database's choice of an id by its number.
unfoldable pub create_user : Platform → (ℕ → Uuid) → User.User → Run User.User
create_user p new_id raw =
    let (u, errors) = User.validate raw in
    elim (validation_result errors) [
      | some e ↦ raise e
      | none ↦ statement "create user" λ now w.
          let (r, t) = insert_user p (new_id w.draws) now u w.users in
          (r, record w { users = t; draws = suc w.draws })
    ]
