-- ===== src/RateLimit/Tests.antt =====
-- The theorems on the rate limiter, applied to a forged header.
use stripe_payment_service.Prelude.{◌≡◌, refl, [], ◌∷◌, Text, bytes}
use stripe_payment_service.RateLimit.{split_and_trim, forwarded_hops, client_addr}
use stripe_payment_service.RateLimit.Address.{client_addr-genuine}

-- The caller sends "1.1.1.1", the first proxy adds "2.2", and the second the first one's address.
abbrev header : Text
unfolding bytes
header = bytes "1.1.1.1, 2.2,3.3"

client_addr-genuine_example : client_addr 2 (bytes "4.4") (header ∷ []) ≡ bytes "2.2"
unfolding bytes split_and_trim forwarded_hops
client_addr-genuine_example =
    client_addr-genuine (bytes "4.4") (header ∷ []) (bytes "1.1.1.1" ∷ []) (bytes "2.2")
      (bytes "3.3" ∷ []) refl
