-- ===== src/Pairing/Pin.antt =====
-- The entry of the PIN in src/nvhttp.cpp.
use midnight_sun.Util.Hex.{from_hex}
use midnight_sun.Prelude.{
  take, ◌↔◌, Bool, true, false, not, ◌&&◌, ◌≡◌, ◌≢◌, none, some, ◌==◌, arith, if◌then◌else◌, ltb,
  length,
}
use midnight_sun.Pairing.{
  Bytes, Crypto, unpaired, Session, Server, find, get_server_cert, fail_pair, eq_phase,
  getservercert,
}
use midnight_sun.Pairing.Requests.{pin}
use midnight_sun.Pairing.Requests.{finish_pin, all_digits}
use midnight_sun.Prelude.Maps.{find-erase_self, find-update_self}

-- `getservercert` accepts the session.
abbrev pub accepts : Session → Bool
accepts sess = eq_phase sess.last_phase unpaired && not (ltb (length sess.salt) 32)

abbrev pub well_formed : Bytes → Bool
well_formed code = (length code == 4) && all_digits code

reached :
    (c : Crypto) (s : Server) (first code name : Bytes) (sess : Session)
    → find first s.sessions ≡ some sess
    → pin c s first code name ≡ (
        if well_formed code
        then finish_pin (get_server_cert c s first sess code) first name
        else some (s, none))
unfolding pin
reached c s first code name sess here = ground (arith, here)

erased :
    (c : Crypto) (s : Server) (first code name : Bytes) (sess : Session)
    → accepts sess ≡ false
    → finish_pin (get_server_cert c s first sess code) first name ≡ none
unfolding get_server_cert fail_pair
erased c s first code name sess refused = ground (arith, find-erase_self first s.sessions)

finishes :
    (c : Crypto) (s : Server) (first code name : Bytes) (sess : Session)
    → find first s.sessions ≡ some sess
    → accepts sess ≡ true
    → finish_pin (get_server_cert c s first sess code) first name ≢ none
unfolding get_server_cert fail_pair
finishes c s first code name sess here accepted =
    let key = c.gen_aes_key (from_hex 16 (take 32 sess.salt) true) code in
    let new = record sess { last_phase = getservercert; cipher_key = some key } in
    ground (arith, find-update_self first (λ _. new) s.sessions sess here)

-- Entering a PIN of four digits writes to a session that has been erased just when `getservercert` does not
-- accept the first session of the map, which is when its phase has begun or its salt is too short. No other PIN
-- does.
pub pin_faults :
    (c : Crypto) (s : Server) (first code name : Bytes) (sess : Session)
    → find first s.sessions ≡ some sess
    → (pin c s first code name ≡ none) ↔ ((well_formed code ≡ true) × (accepts sess ≡ false))
pin_faults c s first code name sess here = (to, from)
  where
    to : pin c s first code name ≡ none → (well_formed code ≡ true) × (accepts sess ≡ false)
    to fault =
        ground
          (arith, reached c s first code name sess here, finishes c s first code name sess here)

    from : (well_formed code ≡ true) × (accepts sess ≡ false) → pin c s first code name ≡ none
    from (good, refused) =
        ground
          (arith, reached c s first code name sess here, erased c s first code name sess refused)
