-- ===== src/Headless/Stages.antt =====
-- The stages of `setup_vkms` in src/platform/linux/headless.cpp.
use midnight_sun.Prelude.{
  ℕ, Bool, true, false, not, ◌&&◌, ◌≡◌, ◌≢◌, refl, Option, none, some, List, ◌∷◌, ◌==◌, arith,
  Bool-cases, Option-cases, inl, inr,
}
use midnight_sun.Prelude.Maps.{Bytes}
use midnight_sun.Headless.{
  Resource, card, framebuffer, buffer, Resources, Device, System, HeadlessDisplay, new_display,
  is_vkms_available, Outcome, returned, threw,
}
use midnight_sun.Headless.Display.{
  fail, first_connector, choose_encoder, choose_crtc, choose_plane, mode_of, set_mode,
  make_framebuffer, connect, configure, open_card, setup_vkms, find_vkms_card, Result,
}
use midnight_sun.Headless.Detect.{search_cards_lem, first_candidate}
use midnight_sun.Headless.SetUp.{
  NonZero, IsReleased, Ends, cleanup_full, cleanup_buffered, cleanup_opened,
}

-- A display that has its card open, is bound to no buffer, and is not in software mode.
record IsOpened (d : HeadlessDisplay) (fd : ℕ) : Type 0 where
  opened : d.drm_fd ≡ some fd
  unframed : d.framebuffer_id ≡ 0
  unbuffered : d.gem_handle ≡ 0
  hardware : d.software_mode ≡ false

fail-Ends :
    (d : HeadlessDisplay) (fd : ℕ) (base : List Resource) (w h refresh : ℕ)
    → IsOpened d fd
    → Ends (fail d (card fd ∷ base)) base w h refresh
unfolding fail
fail-Ends d fd base w h refresh o = cleanup_opened d fd base o.opened o.unframed o.unbuffered

set_mode-Ends :
    (dev : Device) (res : Resources) (d : HeadlessDisplay) (fd : ℕ) (base : List Resource)
    (w h refresh : ℕ)
    → d.drm_fd ≡ some fd
    → (d.framebuffer_id == 0) ≡ false
    → (d.gem_handle == 0) ≡ false
    → (d.crtc_id == 0) ≡ false
    → d.software_mode ≡ false
    → Ends
        (set_mode dev res d
          (framebuffer fd d.framebuffer_id ∷ buffer fd d.gem_handle ∷ card fd ∷ base)
          w
          h
          refresh)
        base
        w
        h
        refresh
unfolding set_mode fail
set_mode-Ends dev res d fd base w h refresh opened framed buffered on_crtc hardware =
    elim (Bool-cases
      (dev.set_crtc d.crtc_id d.framebuffer_id d.connector_id (mode_of w h refresh))) [
        | inl set ↦ rw (set) (record {
          fd = fd;
          opened = opened;
          holds = refl;
          framed = framed;
          buffered = buffered;
          on_crtc = on_crtc;
          is_valid = refl;
          hardware = hardware;
          size = (refl, refl, refl);
        })
        | inr failed ↦ rw (failed) (
            cleanup_full (record d { plane_id = choose_plane dev res d }) fd base opened framed
              buffered)
      ]

make_framebuffer-Ends :
    (dev : Device) (res : Resources) (d : HeadlessDisplay) (fd : ℕ) (base : List Resource)
    (w h refresh : ℕ)
    → NonZero dev
    → IsOpened d fd
    → (d.crtc_id == 0) ≡ false
    → Ends (make_framebuffer dev res d fd (card fd ∷ base) w h refresh) base w h refresh
unfolding make_framebuffer fail
make_framebuffer-Ends dev res d fd base w h refresh nz o on_crtc =
    elim (Option-cases (dev.create_dumb w h)) [
      | inl missing ↦ rw (missing, make_framebuffer) (fail-Ends d fd base w h refresh o)
      | inr ((handle, pitch), made) ↦
          let not_zero : (handle == 0) ≡ false =
            ground (arith, nz.handle_lem w h handle pitch made) in
          let framed : (id : ℕ)
              → id ≢ 0
              → Ends
                  (set_mode dev res (record d { gem_handle = handle; framebuffer_id = id })
                    (framebuffer fd id ∷ buffer fd handle ∷ card fd ∷ base) w h refresh)
                  base w h refresh =
            λ id id_not_zero.
              set_mode-Ends dev res (record d { gem_handle = handle; framebuffer_id = id }) fd base
                w h refresh o.opened (ground arith) not_zero on_crtc o.hardware in
          elim (Option-cases (dev.add_fb2 handle pitch)) [
            | inr (id, added) ↦
                rw (made, make_framebuffer, added) (framed id (nz.fb2_lem handle pitch id added))
            | inl refused ↦ elim (Option-cases (dev.add_fb handle pitch)) [
              | inr (id, added) ↦
                  rw (made, make_framebuffer, refused, added)
                    (framed id (nz.fb_lem handle pitch id added))
              | inl refused_too ↦
                  rw (made, make_framebuffer, refused, refused_too)
                    (cleanup_buffered (record d { gem_handle = handle }) fd base o.opened o.unframed
                      not_zero)
            ]
          ]
    ]

connect-Ends :
    (dev : Device) (res : Resources) (d : HeadlessDisplay) (fd : ℕ) (base : List Resource)
    (w h refresh : ℕ)
    → NonZero dev
    → IsOpened d fd
    → Ends (connect dev res d fd (card fd ∷ base) w h refresh) base w h refresh
unfolding connect
connect-Ends dev res d fd base w h refresh nz o =
    let encoder_id = choose_encoder dev d.connector_id d.encoder_id in
    let crtc_id = choose_crtc dev res encoder_id d.crtc_id in
    let connected = record d { encoder_id = encoder_id; crtc_id = crtc_id } in
    let still : IsOpened connected fd = record {
      opened = o.opened;
      unframed = o.unframed;
      unbuffered = o.unbuffered;
      hardware = o.hardware;
    } in
    elim (Bool-cases (crtc_id == 0)) [
      | inl none_found ↦ rw (none_found) (fail-Ends connected fd base w h refresh still)
      | inr found ↦
          rw (found) (make_framebuffer-Ends dev res connected fd base w h refresh nz still found)
    ]

configure-Ends :
    (dev : Device) (d : HeadlessDisplay) (fd : ℕ) (base : List Resource) (w h refresh : ℕ)
    → NonZero dev
    → IsOpened d fd
    → Ends (configure dev d fd (card fd ∷ base) w h refresh) base w h refresh
unfolding configure
configure-Ends dev d fd base w h refresh nz o = elim (Option-cases dev.resources) [
  | inl missing ↦ rw (missing) (fail-Ends d fd base w h refresh o)
  | inr (res, got) ↦
      let connected = record d { connector_id = first_connector dev res.connectors } in
      elim (Bool-cases (first_connector dev res.connectors == 0)) [
        | inl none_found ↦ rw (got, none_found) (fail-Ends d fd base w h refresh o)
        | inr found ↦
            rw (got, found)
              (connect-Ends dev res connected fd base w h refresh nz (record {
                opened = o.opened;
                unframed = o.unframed;
                unbuffered = o.unbuffered;
                hardware = o.hardware;
              }))
      ]
]

untouched : (held : List Resource) → IsReleased new_display held held
untouched held = record { closed = refl; holds = refl; unframed = refl; freed = refl }

open_card-Ends :
    (sys : System) (held : List Resource) (o : Option Bytes) (w h refresh : ℕ)
    → ((path : Bytes) → NonZero (sys.device path))
    → Ends (open_card sys new_display (held, o) w h refresh) held w h refresh
open_card-Ends sys held none w h refresh nz = untouched held
open_card-Ends sys held (some path) w h refresh nz = elim (Option-cases (sys.open_to_use path)) [
  | inl refused ↦ rw (refused, open_card) (untouched held)
  | inr (fd, got) ↦
      rw (got, open_card)
        (configure-Ends (sys.device path) (record new_display { drm_fd = some fd }) fd held w h
          refresh (nz path)
          (record { opened = refl; unframed = refl; unbuffered = refl; hardware = refl }))
]

-- The search for a card is reached and cannot read /dev/dri.
abbrev pub throws : System → Bool
throws sys = is_vkms_available sys && not sys.lists_dri

-- How a call ends that is to leave `held` where it throws.
abbrev pub EndsOrThrows : Bool → Outcome Result → List Resource → (w h refresh : ℕ) → Type 0
EndsOrThrows thrown (returned r) held w h refresh = (thrown ≡ false) × Ends r held w h refresh
EndsOrThrows thrown (threw left) held w h refresh = (thrown ≡ true) × (left ≡ held)

-- If the kernel gives no id that is 0, `setup_vkms` on a fresh display ends in one of three ways. If vkms is
-- available and /dev/dri cannot be read, it throws, with nothing more held than before. Otherwise it succeeds,
-- and the display is valid, of the size asked for, on a CRTC, and holds its card, a buffer and a framebuffer and
-- nothing else; or it fails, and nothing more is held than before, whichever of its other steps failed.
pub setup_vkms-Ends :
    (sys : System) (held : List Resource) (w h refresh : ℕ)
    → ((path : Bytes) → NonZero (sys.device path))
    → EndsOrThrows (throws sys) (setup_vkms sys new_display held w h refresh) held w h refresh
unfolding setup_vkms find_vkms_card
setup_vkms-Ends sys held w h refresh nz = elim (Bool-cases (is_vkms_available sys)) [
  | inr missing ↦ rw missing (refl, untouched held)
  | inl available ↦ elim (Bool-cases sys.lists_dri) [
    | inr unread ↦ rw (available, unread) (refl, refl)
    | inl read ↦
        rw (available, read, search_cards_lem sys sys.entries held)
          (refl, open_card-Ends sys held (first_candidate sys sys.entries) w h refresh nz)
  ]
]
