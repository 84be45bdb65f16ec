-- ===== src/Auth/Login.antt =====
-- internal/service/auth_service.go: what a caller learns from a login that is refused.
use stripe_payment_service.Prelude.{
  suc, String, ◌≡◌, refl, inl, inr, Bool, true, false, not, ◌&&◌, ◌||◌, Option, none, some, List,
  [], ◌∷◌, ◌==◌, arith, trim_space, Bool-cases,
}
use stripe_payment_service.Domain.Errors.{Result, ok, err, map_error, connection, no_rows}
use stripe_payment_service.Domain.User
use stripe_payment_service.Domain.User.{is_deleted}
use stripe_payment_service.Auth.Password.{mismatch, verify, dummy_compare}
use stripe_payment_service.Auth.Service.{
  AuthService, AuthResult, login, found_login, verified_login, stored_digest,
}
use stripe_payment_service.Repository.Users.{get_user_by_email, first_where, found}
use stripe_payment_service.Run.{World, Trip, depart, arrive, statement, auth, ◌>>=◌}

-- The user that GetUserByEmail finds.
abbrev pub account : AuthService → String → List User.User → Option User.User
account s email =
    first_where
      (λ u. s.platform.same_email u.email (trim_space (trim_space email)) && not (is_deleted u))

-- The password is not the one of the digest, or there is no digest.
abbrev pub is_wrong : AuthService → String → User.User → Bool
is_wrong s password u =
    let digest = stored_digest s u.password_hash in
    digest == "" || not (s.crypto.matches digest password)

-- No user has the address, or the password is not the user's.
abbrev pub is_refused : AuthService → String → Option User.User → Bool
is_refused s password none = true
is_refused s password (some u) = is_wrong s password u

refused : World → Result AuthResult × World
refused w = (
  err mismatch,
  record w { comparisons = suc w.comparisons; counted = auth "login" "failed" ∷ w.counted },
)

unknown-refused :
    (s : AuthService) (password op : String) (w : World)
    → found_login s password (err (map_error op no_rows)) w ≡ refused w
unfolding found_login refused map_error dummy_compare ◌>>=◌
unknown-refused s password op w = refl

wrong-refused :
    (s : AuthService) (password : String) (u : User.User) (w : World)
    → is_wrong s password u ≡ true
    → found_login s password (ok u) w ≡ refused w
unfolding found_login refused verify verified_login dummy_compare ◌>>=◌
wrong-refused s password u w wrong = elim (Bool-cases (stored_digest s u.password_hash == "")) [
  | inl blank ↦ rw blank refl
  | inr given ↦
      let differs : s.crypto.matches (stored_digest s u.password_hash) password ≡ false =
        ground arith in
      rw (given, differs) refl
]

-- The answer, from what the one trip gave.
answer : AuthService → String → Option String × World → Result AuthResult × World
answer s password (none, w) = refused w
answer s password (some text, w) =
    found_login s password (err (map_error "get user by email" (connection text))) w

found-answer :
    (s : AuthService) (password : String) (o : Option User.User) (w : World)
    → is_refused s password o ≡ true
    → found_login s password (found "get user by email" o) w ≡ refused w
found-answer s password none w h = unknown-refused s password "get user by email" w
found-answer s password (some u) w h = wrong-refused s password u w h

login-answer :
    (s : AuthService) (email password : String) (ts : List Trip) (w : World)
    → is_refused s password (account s email w.users) ≡ true
    → login s email password (record w { trips = ts })
      ≡ answer s password (depart ts (record w { trips = ts }))
unfolding login get_user_by_email statement arrive answer ◌>>=◌
login-answer s email password [] w h = found-answer s password (account s email w.users) _ h
login-answer s email password (t ∷ ts) w h = tried t.fault refl
  where
    tried :
        (f : Option String)
        → t.fault ≡ f
        → login s email password (record w { trips = t ∷ ts })
          ≡ answer s password (depart (t ∷ ts) (record w { trips = t ∷ ts }))
    tried none e = rw e (found-answer s password (account s email w.users) _ h)
    tried (some text) e = rw e refl

-- What a world shows besides the table of users.
abbrev pub SameButUsers : World → World → Type 0
SameButUsers v w = record v { users = [] } ≡ record w { users = [] }

answer-uniform :
    (s : AuthService) (password : String) (ts : List Trip) (t u : List User.User) (w : World)
    → let left = answer s password (depart ts (record w { users = t; trips = ts })) in
      let right = answer s password (depart ts (record w { users = u; trips = ts })) in
      (left.0 ≡ right.0) × SameButUsers left.1 right.1 × (left.1.users ≡ t)
unfolding answer refused found_login ◌>>=◌ map_error
answer-uniform s password [] t u w = (refl, refl, refl)
answer-uniform s password (trip ∷ ts) t u w = split trip.fault refl
  where
    split :
        (f : Option String)
        → trip.fault ≡ f
        → let left =
            answer s password (depart (trip ∷ ts) (record w { users = t; trips = trip ∷ ts })) in
          let right =
            answer s password (depart (trip ∷ ts) (record w { users = u; trips = trip ∷ ts })) in
          (left.0 ≡ right.0) × SameButUsers left.1 right.1 × (left.1.users ≡ t)
    split none e = rw e (refl, refl, refl)
    split (some text) e = rw e (refl, refl, refl)

-- A refused login does not tell whether the account exists: for any two tables of users in which no
-- live user has the address, or the password is wrong or the user has none, the answers are equal, and so are the
-- worlds after it apart from the table of users, which is as it was: the same metrics are counted, as
-- many digests are compared, and as much time passes on the database, whether its call fails or not.
pub login-uniform :
    (s : AuthService) (email password : String) (t u : List User.User) (w : World)
    → is_refused s password (account s email t) ≡ true
    → is_refused s password (account s email u) ≡ true
    → let left = login s email password (record w { users = t }) in
      let right = login s email password (record w { users = u }) in
      (left.0 ≡ right.0) × SameButUsers left.1 right.1 × (left.1.users ≡ t)
login-uniform s email password t u w h k =
    rw (login-answer s email password w.trips (record w { users = t }) h) (
      rw (login-answer s email password w.trips (record w { users = u }) k)
        (answer-uniform s password w.trips t u w))
