-- ===== src/Headless/Display.antt =====
-- The operations of `HeadlessDisplay` in src/platform/linux/headless.cpp, and `is_headless`. `held` is what the
-- process holds of the kernel's.
use midnight_sun.Prelude.{
  ℕ, suc, ◌+◌, ◌-◌, ◌*◌, ◌/◌, ◌%◌, ◌^◌, Bool, true, false, not, ◌||◌, Option, none, some, List, [],
  ◌∷◌, ltb, ◌==◌, if◌then◌else◌,
}
use midnight_sun.Prelude.Maps.{Bytes}
use midnight_sun.Headless.{
  Resource, card, framebuffer, buffer, release, Plane, Resources, Mode, Device, System,
  HeadlessDisplay, new_display, is_gamescope_active, is_vkms_available, is_card, is_vkms, Outcome,
  returned, threw,
}

-- The loop of `find_vkms_card`. Every card is closed before the next, or before the path is returned.
abbrev pub search_cards :
    System → List Bytes → (held : List Resource) → List Resource × Option Bytes
search_cards sys [] held = (held, none)
search_cards sys (file ∷ files) held =
    let skipped = search_cards sys files held in
    if not (is_card file) then skipped else elim (sys.open_to_search file) [
      | none ↦ skipped
      | some fd ↦
          let closed = release (card fd) (card fd ∷ held) in
          let rest = search_cards sys files closed in
          if is_vkms (sys.device file) then (closed, some file) else rest
    ]

-- The iterator can throw while no card is open.
unfoldable pub find_vkms_card : System → List Resource → Outcome (List Resource × Option Bytes)
find_vkms_card sys held =
    if sys.lists_dri then returned (search_cards sys sys.entries held) else threw held

-- `cleanup`, which the destructor calls.
unfoldable pub cleanup : HeadlessDisplay → List Resource → HeadlessDisplay × List Resource
cleanup d held = elim d.drm_fd [
  | none ↦ (record d { valid = false }, held)
  | some fd ↦
      let unframed =
        if d.framebuffer_id == 0 then held else release (framebuffer fd d.framebuffer_id) held in
      let freed =
        if d.gem_handle == 0 then unframed else release (buffer fd d.gem_handle) unframed in
      (
        record d { valid = false; framebuffer_id = 0; gem_handle = 0; drm_fd = none },
        release (card fd) freed,
      )
]

abbrev pub Result : Type 0
Result = HeadlessDisplay × List Resource × Bool

unfoldable pub fail : HeadlessDisplay → List Resource → Result
unfolding cleanup
fail d held = let (cleaned, left) = cleanup d held in (cleaned, left, false)

-- The first connector that can be read, or 0.
abbrev pub first_connector : Device → List ℕ → ℕ
first_connector dev [] = 0
first_connector dev (id ∷ ids) = elim (dev.get_connector id) [
  | none ↦ first_connector dev ids
  | some conn ↦ conn.connector_id
]

abbrev pub head_or : List ℕ → ℕ → ℕ
head_or [] n = n
head_or (x ∷ xs) n = x

-- `encoder_id_` keeps its value where the connector has none, as `crtc_id_` does.
abbrev pub choose_encoder : Device → (connector_id encoder_id : ℕ) → ℕ
choose_encoder dev connector_id encoder_id = elim (dev.get_connector connector_id) [
  | none ↦ encoder_id
  | some conn ↦ head_or conn.encoders encoder_id
]

abbrev pub encoder_crtc : Device → (encoder_id crtc_id : ℕ) → ℕ
encoder_crtc dev encoder_id crtc_id =
    if encoder_id == 0
    then crtc_id
    else elim (dev.get_encoder encoder_id) [ none ↦ crtc_id | some id ↦ id ]

unfoldable pub choose_crtc : Device → Resources → (encoder_id crtc_id : ℕ) → ℕ
choose_crtc dev res encoder_id crtc_id =
    let id = encoder_crtc dev encoder_id crtc_id in if id == 0 then head_or res.crtcs id else id

-- `crtc_idx`, the position of the CRTC among the card's; none for -1.
abbrev pub crtc_index : (crtc_id : ℕ) → List ℕ → Option ℕ
crtc_index crtc_id [] = none
crtc_index crtc_id (id ∷ ids) =
    let rest = crtc_index crtc_id ids in
    if id == crtc_id then some 0 else elim rest [ none ↦ none | some n ↦ some (suc n) ]

-- Whether a plane can be used with the CRTC: `possible_crtcs & (1 << crtc_idx)`.
abbrev pub usable : Plane → Option ℕ → Bool
usable plane none = false
usable plane (some n) = (plane.possible_crtcs / 2 ^ n) % 2 == 1

abbrev pub find_plane : Device → Option ℕ → List ℕ → (plane_id : ℕ) → ℕ
find_plane dev crtc_idx [] plane_id = plane_id
find_plane dev crtc_idx (id ∷ ids) plane_id =
    let rest = find_plane dev crtc_idx ids plane_id in
    elim (dev.get_plane id) [
      | none ↦ rest
      | some plane ↦ if usable plane crtc_idx then plane.plane_id else rest
    ]

abbrev pub choose_plane : Device → Resources → HeadlessDisplay → ℕ
choose_plane dev res d = elim dev.planes [
  | none ↦ d.plane_id
  | some ids ↦ find_plane dev (crtc_index d.crtc_id res.crtcs) ids d.plane_id
]

-- `(w * h * refresh) / 1000` of 32-bit integers, with the product as two's complement and the result unsigned.
abbrev pub clock_of : ℕ → ℕ
clock_of product =
    let m = product % 2 ^ 32 in
    if ltb m (2 ^ 31) then m / 1000 else (2 ^ 32 - (2 ^ 32 - m) / 1000) % 2 ^ 32

abbrev pub mode_of : (w h refresh : ℕ) → Mode
mode_of w h refresh = record {
  clock = clock_of (w * h * refresh);
  hdisplay = w;
  hsync_start = w + 48;
  hsync_end = w + 48 + 32;
  htotal = w + 48 + 32 + 80;
  vdisplay = h;
  vsync_start = h + 3;
  vsync_end = h + 3 + 5;
  vtotal = h + 3 + 5 + 24;
  vrefresh = refresh;
}

-- The last part of `setup_vkms`: the plane and the mode.
unfoldable pub set_mode :
    Device → Resources → HeadlessDisplay → List Resource → (w h refresh : ℕ) → Result
unfolding fail
set_mode dev res d held w h refresh =
    let planed = record d { plane_id = choose_plane dev res d } in
    if dev.set_crtc d.crtc_id d.framebuffer_id d.connector_id (mode_of w h refresh)
    then (record planed { width = w; height = h; refresh_rate = refresh; valid = true }, held, true)
    else fail planed held

-- The buffer and its framebuffer, with `drmModeAddFB` if `drmModeAddFB2` fails.
unfoldable pub make_framebuffer :
    Device → Resources → HeadlessDisplay → (fd : ℕ) → List Resource → (w h refresh : ℕ) → Result
unfolding fail set_mode
make_framebuffer dev res d fd held w h refresh = elim (dev.create_dumb w h) [
  | none ↦ fail d held
  | some dumb ↦
      let (handle, pitch) = dumb in
      let buffered = record d { gem_handle = handle } in
      let framed : ℕ → Result = λ id.
        set_mode dev res (record buffered { framebuffer_id = id })
          (framebuffer fd id ∷ buffer fd handle ∷ held) w h refresh in
      elim (dev.add_fb2 handle pitch) [
        | some id ↦ framed id
        | none ↦ elim (dev.add_fb handle pitch) [
          | some id ↦ framed id
          | none ↦ fail buffered (buffer fd handle ∷ held)
        ]
      ]
]

-- What follows once a connector is found: its encoder, and a CRTC.
unfoldable pub connect :
    Device → Resources → HeadlessDisplay → (fd : ℕ) → List Resource → (w h refresh : ℕ) → Result
unfolding fail make_framebuffer choose_crtc
connect dev res d fd held w h refresh =
    let encoder_id = choose_encoder dev d.connector_id d.encoder_id in
    let crtc_id = choose_crtc dev res encoder_id d.crtc_id in
    let connected = record d { encoder_id = encoder_id; crtc_id = crtc_id } in
    if crtc_id == 0
    then fail connected held
    else make_framebuffer dev res connected fd held w h refresh

-- `setup_vkms` on a card that has been opened.
unfoldable pub configure :
    Device → HeadlessDisplay → (fd : ℕ) → List Resource → (w h refresh : ℕ) → Result
unfolding fail connect
configure dev d fd held w h refresh = elim dev.resources [
  | none ↦ fail d held
  | some res ↦
      let conn_id = first_connector dev res.connectors in
      if conn_id == 0
      then fail d held
      else connect dev res (record d { connector_id = conn_id }) fd held w h refresh
]

abbrev pub open_card :
    System → HeadlessDisplay → List Resource × Option Bytes → (w h refresh : ℕ) → Result
open_card sys d (held, none) w h refresh = (d, held, false)
open_card sys d (held, some path) w h refresh = elim (sys.open_to_use path) [
  | none ↦ (record d { drm_fd = none }, held, false)
  | some fd ↦
      configure (sys.device path) (record d { drm_fd = some fd }) fd (card fd ∷ held) w h refresh
]

abbrev pub open_found :
    System
    → HeadlessDisplay
    → Outcome (List Resource × Option Bytes)
    → (w h refresh : ℕ) → Outcome Result
open_found sys d (returned found) w h refresh = returned (open_card sys d found w h refresh)
open_found sys d (threw held) w h refresh = threw held

unfoldable pub setup_vkms :
    System → HeadlessDisplay → List Resource → (w h refresh : ℕ) → Outcome Result
unfolding configure find_vkms_card
setup_vkms sys d held w h refresh =
    if not (is_vkms_available sys)
    then returned (d, held, false)
    else open_found sys d (find_vkms_card sys held) w h refresh

unfoldable pub setup_software : HeadlessDisplay → (w h refresh : ℕ) → HeadlessDisplay × Bool
setup_software d w h refresh = (
  record d { width = w; height = h; refresh_rate = refresh; software_mode = true; valid = true },
  true,
)

abbrev pub or_software : Result → (w h refresh : ℕ) → Option HeadlessDisplay × List Resource
or_software (d, held, true) w h refresh = (some d, held)
or_software (d, held, false) w h refresh =
    let (soft, done) = setup_software d w h refresh in (if done then some soft else none, held)

-- The end of `create`; an exception of `setup_vkms`, which has not changed the display then, destroys it.
abbrev pub or_thrown :
    Outcome Result → (w h refresh : ℕ) → Outcome (Option HeadlessDisplay × List Resource)
unfolding cleanup
or_thrown (returned r) w h refresh = returned (or_software r w h refresh)
or_thrown (threw held) w h refresh = threw (cleanup new_display held).1

-- `create`; none for a null pointer.
unfoldable pub create :
    System → List Resource → (w h refresh : ℕ) → Outcome (Option HeadlessDisplay × List Resource)
unfolding setup_software setup_vkms cleanup
create sys held w h refresh =
    if is_gamescope_active sys
    then (let (soft, done) = setup_software new_display w h refresh in
        returned (if done then some soft else none, held))
    else or_thrown (setup_vkms sys new_display held w h refresh) w h refresh

abbrev pub is_connected : Device → List ℕ → Bool
is_connected dev [] = false
is_connected dev (id ∷ ids) = elim (dev.get_connector id) [
  | none ↦ is_connected dev ids
  | some conn ↦ conn.connected || is_connected dev ids
]

abbrev pub has_display : Device → Bool
has_display dev = elim dev.resources [ none ↦ false | some res ↦ is_connected dev res.connectors ]

-- The loop of `is_headless`, which leaves it at the first physical display.
abbrev pub search_displays : System → List Bytes → List Resource → List Resource × Bool
search_displays sys [] held = (held, true)
search_displays sys (file ∷ files) held =
    let skipped = search_displays sys files held in
    if not (is_card file) then skipped else elim (sys.open_to_use file) [
      | none ↦ skipped
      | some fd ↦
          let closed = release (card fd) (card fd ∷ held) in
          let rest = search_displays sys files closed in
          if is_vkms (sys.device file)
          then rest
          else if has_display (sys.device file)
          then (closed, false)
          else rest
    ]

unfoldable pub is_headless : System → List Resource → Outcome (List Resource × Bool)
is_headless sys held =
    if is_gamescope_active sys
    then returned (held, false)
    else if not sys.has_dri
    then returned (held, true)
    else if sys.lists_dri
    then returned (search_displays sys sys.entries held)
    else threw held
