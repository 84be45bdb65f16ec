-- ===== src/RateLimit/Address.antt =====
-- internal/handler/middleware/ratelimit.go: the address that clientAddr finds behind proxies.
use stripe_payment_service.Prelude.{
  suc, ◌≡◌, refl, some, List, [], ◌∷◌, ◌++◌, arith, length, length-append, get_elem?, Text,
}
use stripe_payment_service.RateLimit.{forwarded_hops, client_addr}

get_elem?-append :
    (xs : List Text) (y : Text) (ys : List Text) → get_elem? (xs ++ y ∷ ys) (length xs) ≡ some y
get_elem?-append [] y ys = refl
get_elem?-append (x ∷ xs) y ys = get_elem?-append xs y ys

append_assoc : (xs ys zs : List Text) → ((xs ++ ys) ++ zs) ≡ (xs ++ (ys ++ zs))
append_assoc [] ys zs = refl
append_assoc (x ∷ xs) ys zs = rw (append_assoc xs ys zs) refl

-- Behind `n` trusted proxies, of which the first records the client's address and each further one
-- its predecessor's, a caller cannot choose the address that it is counted against: whatever it puts
-- into the header before them, the address found is the one that the first proxy recorded.
pub client_addr-genuine :
    (direct : Text) (forwarded : List Text) (spoofed : List Text) (client : Text)
    (proxies : List Text)
    → forwarded_hops forwarded ≡ (spoofed ++ client ∷ proxies)
    → client_addr (suc (length proxies)) direct forwarded ≡ client
unfolding client_addr
client_addr-genuine direct forwarded spoofed client proxies e =
    rw
      (
        e,
        client_addr,
        append_assoc spoofed (client ∷ proxies) (direct ∷ []),
        length-append spoofed (client ∷ (proxies ++ direct ∷ [])),
        length-append proxies (direct ∷ []),
      )
      (ground (arith, get_elem?-append spoofed client (proxies ++ direct ∷ [])))
