-- ===== src/Csrf/Tests.antt =====
-- The protection of the web interface in src/confighttp.cpp on a concrete request.
use midnight_sun.Prelude.{ℕ, ◌+◌, ◌≤◌, true, ◌≡◌, refl, some, none, List, [], ◌∷◌, ◌++◌}
use midnight_sun.Prelude.Maps.{Bytes}
use midnight_sun.Csrf.{
  Request, allowed, generate_csrf_token, validate_csrf_token, is_allowed_origin,
}
use midnight_sun.Csrf.Issued.{
  Call, generate, validate, calls, IssuedBy, presented, is_foreign, validate-IssuedBy,
}

abbrev home : Bytes
home = b'h' ∷ b'o' ∷ []

abbrev evil : Bytes
evil = b'e' ∷ b'v' ∷ []

-- A request from another site that presents a token.
abbrev foreign : Request
foreign = record {
  origin = some evil;
  referer = none;
  header_token = none;
  query_token = some (7 ∷ []);
}

abbrev history : List Call
history =
    generate (record { client = 1 ∷ []; token = 6 ∷ []; at_time = 0 })
    ∷ generate (record { client = 1 ∷ []; token = 7 ∷ []; at_time = 10 })
    ∷ validate 20 (1 ∷ []) foreign
    ∷ []

foreign-is_foreign : is_foreign (home ∷ []) 3600 foreign ≡ true
unfolding is_allowed_origin
foreign-is_foreign = refl

foreign-allowed :
    (validate_csrf_token (home ∷ []) 30 (1 ∷ []) foreign (calls (home ∷ []) 3600 history [])).1
    ≡ allowed
unfolding validate_csrf_token is_allowed_origin generate_csrf_token
foreign-allowed = refl

validate-IssuedBy_example :
    (token : Bytes) × (at_time : ℕ) × (presented (home ∷ []) 3600 foreign ≡ some token)
    × IssuedBy (1 ∷ []) token at_time history
    × (30 ≤ at_time + 3600)
validate-IssuedBy_example =
    validate-IssuedBy (home ∷ []) 3600 history 30 (1 ∷ []) foreign foreign-is_foreign
      foreign-allowed

abbrev page : Bytes
page = home ++ b'/' ∷ 5 ∷ []

page-allowed : is_allowed_origin (evil ∷ home ∷ []) page ≡ true
unfolding is_allowed_origin
page-allowed = refl
