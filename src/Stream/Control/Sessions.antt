-- ===== src/Stream/Control/Sessions.antt =====
-- The sessions of the control server in src/stream.cpp, and the map from peers to them.
use mathlib.Core.Option.{some-injective}
use midnight_sun.Prelude.{
  subst, ℕ, ◌≡◌, refl, sym, ap, ◌∙◌, ◌⊎◌, inl, inr, Bool, true, false, not, ◌&&◌, Option, none,
  some, List, [], ◌∷◌, if◌then◌else◌, ◌==◌, Bool-cases, Option-cases, arith,
}
use midnight_sun.Prelude.Maps.{Bytes, eq_bytes}
use midnight_sun.Stream.Control.{
  Session, Server, find_peer, emplace_peer, has_peer, is_expected, first_expected, update_session,
  claim, claim_session, get_session,
}

-- The session with a number.
abbrev pub session_at : ℕ → List Session → Option Session
session_at id [] = none
session_at id (s ∷ ss) = if s.id == id then some s else session_at id ss

abbrev pub Distinct : List Session → Type 0
Distinct [] = Unit
Distinct (s ∷ ss) = (session_at s.id ss ≡ none) × Distinct ss

-- A peer that the map knows leads to a session of the list, and that session has this peer.
abbrev pub IsMapped : Server → Type 0
IsMapped server =
    (peer id : ℕ)
    → find_peer peer server.peer_to_session ≡ some id
    → (s : Session) × ((session_at id server.sessions ≡ some s) × (s.peer ≡ some peer))

find_peer-emplace_peer :
    (peer id q i : ℕ) (m : List (ℕ × ℕ))
    → find_peer q (emplace_peer peer id m) ≡ some i
    → ((q ≡ peer) × (i ≡ id)) ⊎ (find_peer q m ≡ some i)
find_peer-emplace_peer peer id q i [] = λ e. ground arith
find_peer-emplace_peer peer id q i ((p, j) ∷ m) =
    λ e. ground (arith, find_peer-emplace_peer peer id q i m)

same_id : (n : ℕ) → (n == n) ≡ true
same_id n = ground arith

is_expected_free :
    (connect_data : ℕ) (address : Bytes) (s : Session)
    → is_expected connect_data address s ≡ true
    → s.peer ≡ none
is_expected_free connect_data address s e = elim (Option-cases s.peer) [
  | inl free ↦ free
  | inr (p, taken) ↦
      let taken_too : has_peer s ≡ true = rw taken refl in
      absurd (
        cc (
          e,
          ap
              (λ b.
                not b
                && (if s.session_id_v1
                    then s.connect_data == connect_data
                    else eq_bytes s.expected_peer_address address))
              taken_too,
        ))
]

first_expected_lem :
    (connect_data : ℕ) (address : Bytes) (ss : List Session) (s : Session)
    → Distinct ss
    → first_expected connect_data address ss ≡ some s
    → (session_at s.id ss ≡ some s) × (s.peer ≡ none)
first_expected_lem connect_data address [] s distinct = λ e. absurd (cc)
first_expected_lem connect_data address (t ∷ ss) s (fresh, distinct) =
    elim (Bool-cases (is_expected connect_data address t)) [
      | inl here ↦ rw here (λ e.
          subst (λ u. (session_at u.id (t ∷ ss) ≡ some u) × (u.peer ≡ none)) (some-injective t s e)
            (rw (same_id t.id) refl, is_expected_free connect_data address t here))
      | inr other ↦ rw other (λ e.
          let (found, free) = first_expected_lem connect_data address ss s distinct e in
          let apart : (t.id == s.id) ≡ false = elim (Bool-cases (t.id == s.id)) [
            | inl same ↦
                let id : t.id ≡ s.id = ground arith in
                absurd (cc (found, fresh, ap (λ i. session_at i ss) id))
            | inr differ ↦ differ
          ] in
          (rw apart found, free))
    ]

abbrev changed : ℕ → (Session → Session) → Session → Session
changed id f s = if s.id == id then f s else s

changed_id :
    (id : ℕ) (f : Session → Session) (s : Session)
    → ((t : Session) → (f t).id ≡ t.id)
    → (changed id f s).id ≡ s.id
changed_id id f s keeps = elim (Bool-cases (s.id == id)) [
  | inl e ↦ rw e (keeps s)
  | inr e ↦ rw e refl
]

changed_other :
    (id : ℕ) (f : Session → Session) (s : Session) → (s.id == id) ≡ false → changed id f s ≡ s
changed_other id f s e = rw e refl

changed_self :
    (id : ℕ) (f : Session → Session) (s : Session) → (s.id == id) ≡ true → changed id f s ≡ f s
changed_self id f s e = rw e refl

pub session_at_id :
    (id : ℕ) (ss : List Session) (s : Session) → session_at id ss ≡ some s → s.id ≡ id
session_at_id id [] s = λ e. absurd (cc)
session_at_id id (t ∷ ss) s = elim (Bool-cases (t.id == id)) [
  | inl here ↦
      let found : t.id ≡ id = ground arith in
      rw here (λ e. ap (λ (u : Session). u.id) (sym (some-injective t s e)) ∙ found)
  | inr other ↦ rw other (session_at_id id ss s)
]

pub session_at-update_session :
    (id : ℕ) (f : Session → Session) (ss : List Session) (i : ℕ) (s : Session)
    → ((t : Session) → (f t).id ≡ t.id)
    → session_at i ss ≡ some s
    → session_at i (update_session id f ss) ≡ some (changed id f s)
session_at-update_session id f [] i s keeps = λ e. absurd (cc)
session_at-update_session id f (t ∷ ss) i s keeps =
    let same : ((changed id f t).id == i) ≡ (t.id == i) =
      ap (λ n. n == i) (changed_id id f t keeps) in
    elim (Bool-cases (t.id == i)) [
      | inl here ↦ rw (same, here) (λ e. ap (λ u. some (changed id f u)) (some-injective t s e))
      | inr other ↦ rw (same, other) (session_at-update_session id f ss i s keeps)
    ]

session_at-update_session-none :
    (id : ℕ) (f : Session → Session) (ss : List Session) (i : ℕ)
    → ((t : Session) → (f t).id ≡ t.id)
    → session_at i ss ≡ none
    → session_at i (update_session id f ss) ≡ none
session_at-update_session-none id f [] i keeps = λ e. refl
session_at-update_session-none id f (t ∷ ss) i keeps =
    let same : ((changed id f t).id == i) ≡ (t.id == i) =
      ap (λ n. n == i) (changed_id id f t keeps) in
    elim (Bool-cases (t.id == i)) [
      | inl here ↦ rw (same, here) (λ e. absurd (cc))
      | inr other ↦ rw (same, other) (session_at-update_session-none id f ss i keeps)
    ]

pub update_session-Distinct :
    (id : ℕ) (f : Session → Session) (ss : List Session)
    → ((t : Session) → (f t).id ≡ t.id)
    → Distinct ss
    → Distinct (update_session id f ss)
update_session-Distinct id f [] keeps d = tt
update_session-Distinct id f (t ∷ ss) keeps (fresh, d) = (
  ap (λ i. session_at i (update_session id f ss)) (changed_id id f t keeps)
      ∙ session_at-update_session-none id f ss t.id keeps fresh,
  update_session-Distinct id f ss keeps d,
)

-- The sessions have numbers of their own, and the map leads to sessions that have the peer.
abbrev pub IsSound : Server → Type 0
IsSound server = Distinct server.sessions × IsMapped server

claim_session-IsSound :
    (peer : ℕ) (is_address : Bool) (connect_data : ℕ) (address : Bytes) (server : Server)
    → IsSound server
    → IsSound
        (claim_session peer is_address
          (first_expected connect_data address server.sessions)
          server).1
claim_session-IsSound peer is_address connect_data address server (distinct, mapped) =
    elim (Option-cases (first_expected connect_data address server.sessions)) [
      | inl absent ↦ rw absent (distinct, mapped)
      | inr (s, e) ↦
          let (at, free) = first_expected_lem connect_data address server.sessions s distinct e in
          let kept : (q i : ℕ)
              → find_peer q server.peer_to_session ≡ some i
              → (u : Session) × ((session_at i (update_session s.id (claim peer) server.sessions)
                    ≡ some u)
                  × (u.peer ≡ some q)) =
            λ q i found.
              let (u, (here, has)) = mapped q i found in
              let id : u.id ≡ i = session_at_id i server.sessions u here in
              let apart : (u.id == s.id) ≡ false = elim (Bool-cases (u.id == s.id)) [
                | inl same ↦
                    let ids : i ≡ s.id = ground arith in
                    let one : u ≡ s =
                      some-injective u s
                        (sym here ∙ ap (λ n. session_at n server.sessions) ids ∙ at) in
                    absurd (cc (ap (λ (t : Session). t.peer) one, free, has))
                | inr differ ↦ differ
              ] in
              (
                u,
                (
                  session_at-update_session s.id (claim peer) server.sessions i u (λ t. refl) here
                      ∙ ap some (changed_other s.id (claim peer) u apart),
                  has,
                ),
              ) in
          let new : (u : Session) × ((session_at s.id
                    (update_session s.id (claim peer) server.sessions)
                  ≡ some u)
                × (u.peer ≡ some peer)) =
            (
              claim peer s,
              (
                session_at-update_session s.id (claim peer) server.sessions s.id s (λ t. refl) at
                    ∙ ap some (changed_self s.id (claim peer) s (same_id s.id)),
                refl,
              ),
            ) in
          let still =
            update_session-Distinct s.id (claim peer) server.sessions (λ t. refl) distinct in
          elim (Bool-cases is_address) [
            | inl yes_address ↦
                rw (e, yes_address)
                  (
                    still,
                    λ q i found.
                        elim (find_peer-emplace_peer peer s.id q i server.peer_to_session found) [
                          | inl (same, id) ↦
                              subst
                                (λ v.
                                  (u : Session) × ((session_at v
                                        (update_session s.id (claim peer) server.sessions)
                                      ≡ some u)
                                    × (u.peer ≡ some q)))
                                (sym id)
                                (subst
                                  (λ v.
                                    (u : Session) × ((session_at s.id
                                          (update_session s.id (claim peer) server.sessions)
                                        ≡ some u)
                                      × (u.peer ≡ some v)))
                                  (sym same) new)
                          | inr old ↦ kept q i old
                        ],
                  )
            | inr not_address ↦ rw (e, not_address) (still, kept)
          ]
    ]

-- `get_session`, also where it throws, keeps what the control server relies on: the sessions have
-- numbers of their own, and a peer of the map leads to a session of the list with this very peer.
pub get_session-IsSound :
    (peer connect_data : ℕ) (address : Bytes) (is_address : Bool) (server : Server)
    → IsSound server
    → IsSound (get_session peer connect_data address is_address server).1
unfolding get_session
get_session-IsSound peer connect_data address is_address server sound =
    elim (Option-cases (find_peer peer server.peer_to_session)) [
      | inl new ↦
          rw (new, get_session)
            (claim_session-IsSound peer is_address connect_data address server sound)
      | inr (id, old) ↦ rw (old, get_session) sound
    ]
