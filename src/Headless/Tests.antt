-- ===== src/Headless/Tests.antt =====
-- The virtual display of src/platform/linux/headless.cpp on a concrete system.
use midnight_sun.Prelude.{
  ◌≡◌, refl, ◌==◌, if◌then◌else◌, Bool, true, false, none, some, List, [], ◌∷◌, arith,
}
use midnight_sun.Prelude.Maps.{Bytes}
use midnight_sun.Headless.{
  card, Device, System, new_display, is_vkms_available, is_gamescope_active, Outcome, returned,
  threw,
}
use midnight_sun.Headless.Display.{create, setup_vkms, find_vkms_card, cleanup, Result}
use midnight_sun.Headless.SetUp.{NonZero}
use midnight_sun.Headless.Stages.{setup_vkms-Ends, EndsOrThrows}
use midnight_sun.Headless.Create.{CreatedOrThrows, create-Created}
use midnight_sun.Headless.Capture.{Image, Round}

-- A card of vkms whose first connector cannot be read and whose `drmModeAddFB2` is refused.
abbrev vkms_card : Device
vkms_card = record {
  driver = some (b'v' ∷ b'k' ∷ b'm' ∷ b's' ∷ []);
  resources = some (record { connectors = 31 ∷ 32 ∷ []; crtcs = 41 ∷ [] });
  get_connector = λ id.
      if id == 31
      then none
      else some (record { connector_id = id; connected = false; encoders = [] });
  get_encoder = λ id. none;
  create_dumb = λ w h. some (7, 7680);
  add_fb2 = λ handle pitch. none;
  add_fb = λ handle pitch. some 9;
  planes = some (51 ∷ []);
  get_plane = λ id. some (record { plane_id = id; possible_crtcs = 1 });
  set_crtc = λ crtc fb conn mode. true;
}

abbrev card1 : Bytes
card1 = b'c' ∷ b'a' ∷ b'r' ∷ b'd' ∷ b'1' ∷ []

abbrev machine : System
machine = record {
  gamescope_variables = false ∷ false ∷ false ∷ false ∷ [];
  gamescope_socket = some false;
  environ = none;
  vkms_loaded = false;
  modprobe = true;
  vkms_loaded_after = true;
  has_dri = true;
  lists_dri = true;
  entries = (b'b' ∷ b'y' ∷ []) ∷ card1 ∷ [];
  open_to_search = λ path. some 3;
  open_to_use = λ path. some 4;
  device = λ path. vkms_card;
}

vkms_card-NonZero : (path : Bytes) → NonZero (machine.device path)
vkms_card-NonZero path = record {
  handle_lem = λ w h handle pitch e. ground arith;
  fb2_lem = λ handle pitch id e. absurd (cc);
  fb_lem = λ handle pitch id e. ground arith;
}

create-Created_example :
    CreatedOrThrows false (create machine (card 2 ∷ []) 1920 1080 60) (card 2 ∷ []) 1920 1080 60
unfolding is_gamescope_active is_vkms_available
create-Created_example = create-Created machine (card 2 ∷ []) 1920 1080 60 vkms_card-NonZero

setup_vkms-Ends_example :
    EndsOrThrows false
      (setup_vkms machine new_display (card 2 ∷ []) 1920 1080 60)
      (card 2 ∷ [])
      1920
      1080
      60
unfolding is_vkms_available
setup_vkms-Ends_example = setup_vkms-Ends machine (card 2 ∷ []) 1920 1080 60 vkms_card-NonZero

abbrev succeeds : Outcome Result → Bool
succeeds (returned (d, held, done)) = done
succeeds (threw held) = false

-- The set-up of that card succeeds.
card_is_set_up : succeeds (setup_vkms machine new_display [] 1920 1080 60) ≡ true
unfolding setup_vkms find_vkms_card is_vkms_available
card_is_set_up = refl

-- With a directory that cannot be read there is no display.
create_throws :
    create (record machine { lists_dri = false }) (card 2 ∷ []) 1920 1080 60 ≡ threw (card 2 ∷ [])
unfolding create setup_vkms find_vkms_card cleanup is_vkms_available is_gamescope_active
create_throws = refl

abbrev rounds : List Round
rounds =
    let img : Image = record { height = 1; row_pitch = 4; pixels = 9 ∷ 9 ∷ 9 ∷ 9 ∷ [] } in
    record { now = 0; pulled = some img; accepted = true }
    ∷ record { now = 95; pulled = some img; accepted = true }
    ∷ record { now = 100; pulled = none; accepted = true }
    ∷ []
