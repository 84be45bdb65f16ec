-- ===== src/Session/Tests.antt =====
-- The theorems on refresh tokens, applied to one session.
use stripe_payment_service.Prelude.{String, ◌≡◌, refl, some, [], ◌∷◌}
use stripe_payment_service.Prelude.Table
use stripe_payment_service.Domain.Errors.{ok, err, sentinel_failure, token_reused}
use stripe_payment_service.Domain.Token.{RefreshToken}
use stripe_payment_service.Session.{
  Tokens, find_token, issue, issued_row, set_used, Exchange, exchange_found, consume,
}
use stripe_payment_service.Session.Rotation.{IsEnded, consume_once}
use stripe_payment_service.Session.Lineage.{
  HasOneLive, here, next, login, exchange, Reach-HasOneLive,
}

abbrev first : RefreshToken
first = issued_row 100 7 "h1" 42 9000

abbrev spent : RefreshToken
spent = set_used 150 first

abbrev exchange_of : String → String → Exchange
exchange_of presented successor = record {
  presented_hash = presented;
  successor_hash = successor;
  successor_expires_at = 9500;
}

find-spent : find_token "h1" (spent ∷ []) ≡ some spent
unfolding Table.lookup
find-spent = refl

first-consumed :
    (consume 200 200 (exchange_of "h1" "h2") (first ∷ [])).0 ≡ ok (issued_row 200 7 "h2" 42 9500)
unfolding consume exchange_found issue Table.lookup Table.update
first-consumed = refl

consume_once_example :
    ((consume 300 300
        (exchange_of "h1" "h3")
        (consume 200 200 (exchange_of "h1" "h2") (first ∷ [])).1).0
      ≡ err (sentinel_failure token_reused))
    × IsEnded 42
        (consume 300 300
          (exchange_of "h1" "h3")
          (consume 200 200 (exchange_of "h1" "h2") (first ∷ [])).1).1
consume_once_example =
    consume_once 200 200 300 300 (exchange_of "h1" "h2") (exchange_of "h1" "h3") (first ∷ [])
      (issued_row 200 7 "h2" 42 9500) first-consumed refl

abbrev logged_in : Tokens
logged_in = (issue "create refresh token" 100 7 "h1" 42 9000 []).1

Reach-HasOneLive_example : HasOneLive (consume 200 200 (exchange_of "h1" "h2") logged_in).1
Reach-HasOneLive_example = Reach-HasOneLive (
    next (next here (login "create refresh token" 100 7 "h1" 42 9000 refl refl))
      (exchange 200 200 (exchange_of "h1" "h2") refl))
