-- ===== src/Util/Hex/Tests.antt =====
-- The hexadecimal text of src/utility.h on concrete bytes.
use midnight_sun.Prelude.{ℕ, true, ◌≡◌, List, [], ◌∷◌, arith}
use midnight_sun.Util.Hex.{hex_vec, from_hex_vec}
use midnight_sun.Util.Hex.RoundTrip.{Bytes, from_hex_vec-hex_vec}

abbrev three_bytes : List ℕ
three_bytes = 7 ∷ 171 ∷ 255 ∷ []

three_bytes-Bytes : Bytes three_bytes
three_bytes-Bytes = ground arith

from_hex_vec-hex_vec_example : from_hex_vec (hex_vec three_bytes true) true ≡ three_bytes
from_hex_vec-hex_vec_example = from_hex_vec-hex_vec three_bytes true three_bytes-Bytes
