-- ===== src/Csrf/Origins.antt =====
-- Which URLs the web interface of src/confighttp.cpp takes to be of an allowed origin.
use midnight_sun.Prelude.{
  true, ◌||◌, ◌≡◌, sym, ap, ◌∙◌, inl, inr, none, some, List, [], ◌∷◌, ◌++◌, arith, Bool-cases,
  Option-cases, ◌==◌, if◌then◌else◌,
}
use midnight_sun.Prelude.Maps.{Bytes}
use midnight_sun.Csrf.{strip, ends_origin, has_origin, is_allowed_origin}

strip-append : (prefix text rest : Bytes) → strip prefix text ≡ some rest → text ≡ prefix ++ rest
strip-append [] text rest e = cc
strip-append (p ∷ ps) [] rest e = absurd (cc)
strip-append (p ∷ ps) (t ∷ ts) rest e = elim (Bool-cases (t == p)) [
  | inl same ↦
      let first : t ≡ p = ground arith in
      let others : ts ≡ ps ++ rest =
        strip-append ps ts rest (ap (λ b. if b then strip ps ts else none) (sym same) ∙ e) in
      cc (first, others)
  | inr differ ↦ absurd (cc (ap (λ b. if b then strip ps ts else none) (sym differ) ∙ e))
]

-- A member of the list.
pub data Among (x : Bytes) : List Bytes → Type 0 where
  here : {xs : List Bytes} → Among x (x ∷ xs)
  there : {y : Bytes} {xs : List Bytes} → Among x xs → Among x (y ∷ xs)

-- A URL that is taken to be of an allowed origin is one of the configured origins, followed by nothing, by ':'
-- and more, or by '/' and more.
pub is_allowed_origin-append :
    (origins : List Bytes) (url : Bytes)
    → is_allowed_origin origins url ≡ true
    → (origin rest : Bytes) × Among origin origins
      × (url ≡ origin ++ rest)
      × (ends_origin rest ≡ true)
unfolding is_allowed_origin
is_allowed_origin-append [] url e = absurd (cc)
is_allowed_origin-append (origin ∷ origins) url e = elim (Bool-cases (has_origin url origin)) [
  | inl hit ↦ elim (Option-cases (strip origin url)) [
    | inl not_prefix ↦ absurd (ground (arith, not_prefix))
    | inr (rest, prefix) ↦
        (origin, rest, here, strip-append origin url rest prefix, ground (arith, prefix))
  ]
  | inr miss ↦
      let (found, rest, among, split, ends) =
        is_allowed_origin-append origins url
          (ap (λ b. b || is_allowed_origin origins url) (sym miss) ∙ e) in
      (found, rest, there among, split, ends)
]
