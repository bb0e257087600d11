-- ===== src/Csrf/Issued.antt =====
-- Which tokens the web interface of src/confighttp.cpp accepts.
use midnight_sun.Prelude.{
  ℕ, ◌+◌, ◌≤◌, Bool, true, not, ◌&&◌, ◌≡◌, refl, sym, ap, ◌∙◌, subst, inl, inr, Option, none, some,
  List, [], ◌∷◌, arith, Bool-cases, Option-cases, ltb, All, if◌then◌else◌,
}
use midnight_sun.Prelude.Maps.{Bytes, eq_bytes, find, erase}
use midnight_sun.Prelude.Maps.{eq_bytes_sound}
use midnight_sun.Csrf.{
  Token, Tokens, keep_fresh, assign, generate_csrf_token, Verdict, allowed, missing_token,
  validate_stored_csrf_token, Request, is_allowed_header, is_absent, validate_csrf_token,
}

-- One call of `generate_csrf_token`.
pub record Issue : Type 0 where
  pub client : Bytes
  pub token : Bytes
  pub at_time : ℕ

-- The calls that change the tokens, in the order in which they hold the lock.
pub data Call : Type 0 where
  generate : Issue → Call
  validate : (now : ℕ) → (client : Bytes) → Request → Call

-- The token was generated for the client by one of the calls, at that time.
pub data IssuedBy (client token : Bytes) (at_time : ℕ) : List Call → Type 0 where
  first_call :
      {cs : List Call}
      → IssuedBy client token at_time
          (generate (record { client = client; token = token; at_time = at_time }) ∷ cs)
  later_call :
      {c : Call} {cs : List Call}
      → IssuedBy client token at_time cs
      → IssuedBy client token at_time (c ∷ cs)

-- What holds of each entry is kept by the operations of the map.
module _ (P : Bytes × Token → Type 0) where
  All-keep_fresh : (now : ℕ) (tokens : Tokens) → All P tokens → All P (keep_fresh now tokens)
  All-keep_fresh now [] all = tt
  All-keep_fresh now ((client, t) ∷ tokens) (p, all) = elim (Bool-cases (ltb t.expiration now)) [
    | inl old ↦ rw (keep_fresh, old) (All-keep_fresh now tokens all)
    | inr fresh ↦ rw (keep_fresh, fresh) (p, All-keep_fresh now tokens all)
  ]

  All-erase : (id : Bytes) (tokens : Tokens) → All P tokens → All P (erase id tokens)
  All-erase id [] all = tt
  All-erase id ((client, t) ∷ tokens) (p, all) = elim (Bool-cases (eq_bytes client id)) [
    | inl hit ↦ rw (erase, hit) (All-erase id tokens all)
    | inr miss ↦ rw (erase, miss) (p, All-erase id tokens all)
  ]

  All-assign :
      (id : Bytes) (t : Token) (tokens : Tokens)
      → P (id, t)
      → All P tokens
      → All P (assign id t tokens)
  All-assign id t [] new all = (new, tt)
  All-assign id t ((client, u) ∷ tokens) new (p, all) = elim (Bool-cases (eq_bytes client id)) [
    | inl hit ↦
        let here : P (client, t) = subst (λ k. P (k, t)) (sym (eq_bytes_sound client id hit)) new in
        rw (assign, hit) (here, all)
    | inr miss ↦ rw (assign, miss) (p, All-assign id t tokens new all)
  ]

  All-find :
      (id : Bytes) (t : Token) (tokens : Tokens)
      → All P tokens
      → find id tokens ≡ some t
      → P (id, t)
  All-find id t [] all e = absurd (cc)
  All-find id t ((client, u) ∷ tokens) (p, all) e = elim (Bool-cases (eq_bytes client id)) [
    | inl hit ↦
        let same : some u ≡ some t = ap (λ b. if b then some u else find id tokens) (sym hit) ∙ e in
        let moved : P (id, u) = subst (λ k. P (k, u)) (eq_bytes_sound client id hit) p in
        subst (λ v. P (id, v)) (cc (same)) moved
    | inr miss ↦
        All-find id t tokens all (ap (λ b. if b then some u else find id tokens) (sym miss) ∙ e)
  ]

module _ (origins : List Bytes) (lifetime : ℕ) where
  abbrev pub call : Call → Tokens → Tokens
  call (generate i) tokens = generate_csrf_token lifetime i.at_time i.client i.token tokens
  call (validate now client r) tokens = (validate_csrf_token origins now client r tokens).0

  abbrev pub calls : List Call → Tokens → Tokens
  calls [] tokens = tokens
  calls (c ∷ cs) tokens = calls cs (call c tokens)

  -- An entry that one of the calls has made, which expires a lifetime later.
  abbrev Issued : List Call → Bytes × Token → Type 0
  Issued cs (client, t) =
      (at_time : ℕ) × IssuedBy client t.token at_time cs × (t.expiration ≡ at_time + lifetime)

  -- Each entry that these calls make satisfies `P`.
  abbrev Makes : (Bytes × Token → Type 0) → List Call → Type 0
  Makes P [] = Unit
  Makes P (generate i ∷ cs) =
      P (i.client, record { token = i.token; expiration = i.at_time + lifetime }) × Makes P cs
  Makes P (validate now client r ∷ cs) = Makes P cs

  Makes-later : (c : Call) (cs ds : List Call) → Makes (Issued ds) cs → Makes (Issued (c ∷ ds)) cs
  Makes-later c [] ds m = tt
  Makes-later c (generate i ∷ cs) ds ((at_time, by, e), m) =
      ((at_time, later_call by, e), Makes-later c cs ds m)
  Makes-later c (validate now client r ∷ cs) ds m = Makes-later c cs ds m

  Makes-Issued : (cs : List Call) → Makes (Issued cs) cs
  Makes-Issued [] = tt
  Makes-Issued (generate i ∷ cs) =
      ((i.at_time, first_call, refl), Makes-later (generate i) cs cs (Makes-Issued cs))
  Makes-Issued (validate now client r ∷ cs) =
      Makes-later (validate now client r) cs cs (Makes-Issued cs)

  All-validate_stored :
      (P : Bytes × Token → Type 0) (now : ℕ) (client provided : Bytes) (tokens : Tokens)
      → All P tokens
      → All P (validate_stored_csrf_token now client provided tokens).0
  unfolding validate_stored_csrf_token
  All-validate_stored P now client provided tokens all = elim (Option-cases (find client tokens)) [
    | inl missing ↦ rw (missing, validate_stored_csrf_token) all
    | inr (t, e) ↦ elim (Bool-cases (ltb t.expiration now)) [
      | inl old ↦ rw (e, validate_stored_csrf_token, old) (All-erase P client tokens all)
      | inr fresh ↦ elim (Bool-cases (not (eq_bytes t.token provided))) [
        | inl wrong ↦ rw (e, validate_stored_csrf_token, fresh, wrong) all
        | inr right ↦ rw (e, validate_stored_csrf_token, fresh, right) all
      ]
    ]
  ]

  -- The token that a request presents: that of the header, else that of the query.
  abbrev pub presented : Request → Option Bytes
  presented r = elim r.header_token [ some token ↦ some token | none ↦ r.query_token ]

  -- The request names a site, and none that it names is allowed.
  abbrev pub is_foreign : Request → Bool
  is_foreign r =
      not (is_allowed_header origins r.origin)
      && not (is_allowed_header origins r.referer)
      && not (is_absent r.origin && is_absent r.referer)

  abbrev by_token : (now : ℕ) → (client : Bytes) → Option Bytes → Tokens → Tokens × Verdict
  by_token now client none tokens = (tokens, missing_token)
  by_token now client (some token) tokens = validate_stored_csrf_token now client token tokens

  validate_by_token :
      (now : ℕ) (client : Bytes) (r : Request) (tokens : Tokens)
      → validate_csrf_token origins now client r tokens
        ≡ (if is_foreign r then by_token now client (presented r) tokens else (tokens, allowed))
  unfolding validate_csrf_token
  validate_by_token now client r tokens = ground arith

  All-by_token :
      (P : Bytes × Token → Type 0) (now : ℕ) (client : Bytes) (o : Option Bytes) (tokens : Tokens)
      → All P tokens
      → All P (by_token now client o tokens).0
  All-by_token P now client none tokens all = all
  All-by_token P now client (some token) tokens all =
      All-validate_stored P now client token tokens all

  All-validate :
      (P : Bytes × Token → Type 0) (now : ℕ) (client : Bytes) (r : Request) (tokens : Tokens)
      → All P tokens
      → All P (validate_csrf_token origins now client r tokens).0
  All-validate P now client r tokens all =
      subst (λ z. All P z.0) (sym (validate_by_token now client r tokens))
        (elim (Bool-cases (is_foreign r)) [
          | inl foreign ↦ rw (foreign) (All-by_token P now client (presented r) tokens all)
          | inr local ↦ rw (local) all
        ])

  All-calls :
      (P : Bytes × Token → Type 0) (cs : List Call) (tokens : Tokens)
      → Makes P cs
      → All P tokens
      → All P (calls cs tokens)
  unfolding generate_csrf_token
  All-calls P [] tokens m all = all
  All-calls P (generate i ∷ cs) tokens (p, m) all = All-calls P cs (call (generate i) tokens) m (
      All-assign P i.client (record { token = i.token; expiration = i.at_time + lifetime })
        (keep_fresh i.at_time tokens) p (All-keep_fresh P i.at_time tokens all))
  All-calls P (validate now client r ∷ cs) tokens m all =
      All-calls P cs (call (validate now client r) tokens) m
        (All-validate P now client r tokens all)

  validate_stored-allowed :
      (now : ℕ) (client provided : Bytes) (tokens : Tokens)
      → (validate_stored_csrf_token now client provided tokens).1 ≡ allowed
      → (t : Token) × (find client tokens ≡ some t) × (now ≤ t.expiration) × (t.token ≡ provided)
  unfolding validate_stored_csrf_token
  validate_stored-allowed now client provided tokens yes_ =
      elim (Option-cases (find client tokens)) [
        | inl missing ↦ absurd (ground (arith, missing))
        | inr (t, e) ↦
            (t, e, ground (arith, e), eq_bytes_sound t.token provided (ground (arith, e)))
      ]

  -- Tokens are generated and requests tested in any order. A request that names a site, none of them allowed, is
  -- let through only if it presents a token that one of these calls has generated for the same client, a
  -- lifetime ago at most.
  pub validate-IssuedBy :
      (cs : List Call) (now : ℕ) (client : Bytes) (r : Request)
      → is_foreign r ≡ true
      → (validate_csrf_token origins now client r (calls cs [])).1 ≡ allowed
      → (token : Bytes) × (at_time : ℕ) × (presented r ≡ some token)
        × IssuedBy client token at_time cs
        × (now ≤ at_time + lifetime)
  validate-IssuedBy cs now client r foreign let_through =
      from (presented r) (ap (λ (z : Tokens × Verdict). z.1) (sym tested) ∙ let_through)
    where
      tested :
          validate_csrf_token origins now client r (calls cs [])
          ≡ by_token now client (presented r) (calls cs [])
      tested =
          validate_by_token now client r (calls cs [])
          ∙ ap
              (λ b.
                if b
                then by_token now client (presented r) (calls cs [])
                else (calls cs [], allowed))
              foreign

      from :
          (o : Option Bytes)
          → (by_token now client o (calls cs [])).1 ≡ allowed
          → (token : Bytes) × (at_time : ℕ) × (o ≡ some token)
            × IssuedBy client token at_time cs
            × (now ≤ at_time + lifetime)
      from none e = absurd (cc)
      from (some token) e =
          let (t, found, fresh, same) = validate_stored-allowed now client token (calls cs []) e in
          let (at_time, by, expires) =
            All-find (Issued cs) client t (calls cs [])
              (All-calls (Issued cs) cs [] (Makes-Issued cs) tt) found in
          (
            token,
            at_time,
            refl,
            subst (λ x. IssuedBy client x at_time cs) same by,
            subst (λ x. now ≤ x) expires fresh,
          )
