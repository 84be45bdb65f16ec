-- ===== src/Http/Cors.antt =====
-- internal/handler/middleware/cors.go: the origins that may call. What the middleware does
-- with a request is in Middleware/Chain.
use Prim.Native.Char.{code}
use stripe_payment_service.Prelude.{
  String, Bool, not, ◌&&◌, List, ◌==◌, any_where, nat_eq, keep, map, trim_space, if◌then◌else◌,
}

-- strings.TrimSuffix of a slash
trim_slash : String → String
trim_slash String.[] = ""
trim_slash (String.◌∷◌ c s) =
    let rest = trim_slash s in if s == "" && nat_eq (code c) b'/' then "" else String.◌∷◌ c rest

-- The set of origins that the middleware builds.
unfoldable pub allowed_origins : List String → List String
unfolding trim_slash
allowed_origins origins = keep (λ o. not (o == "")) (map (λ o. trim_space (trim_slash o)) origins)

abbrev pub is_allowed : List String → String → Bool
is_allowed allowed origin = not (origin == "") && any_where (λ o. o == origin) allowed
