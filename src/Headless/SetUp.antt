-- ===== src/Headless/SetUp.antt =====
-- The set-up and the release of the virtual display in src/platform/linux/headless.cpp.
use midnight_sun.Prelude.{ℕ, true, false, ◌≡◌, ◌≢◌, none, some, List, ◌∷◌, ◌==◌, arith}
use midnight_sun.Headless.{Resource, card, framebuffer, buffer, Device, HeadlessDisplay}
use midnight_sun.Headless.Display.{cleanup, Result}
use midnight_sun.Headless.Detect.{release-acquire}

-- The ids that the kernel gives are not 0.
pub record NonZero (dev : Device) : Type 0 where
  pub handle_lem : (w h handle pitch : ℕ) → dev.create_dumb w h ≡ some (handle, pitch) → handle ≢ 0
  pub fb2_lem : (handle pitch id : ℕ) → dev.add_fb2 handle pitch ≡ some id → id ≢ 0
  pub fb_lem : (handle pitch id : ℕ) → dev.add_fb handle pitch ≡ some id → id ≢ 0

-- A display that holds a card, a buffer of it and its framebuffer, and nothing else is held beyond `base`.
pub record IsSetUp (d : HeadlessDisplay) (held base : List Resource) (w h refresh : ℕ)
    : Type 0 where
  pub fd : ℕ
  pub opened : d.drm_fd ≡ some fd
  pub holds : held ≡ framebuffer fd d.framebuffer_id ∷ buffer fd d.gem_handle ∷ card fd ∷ base
  pub framed : (d.framebuffer_id == 0) ≡ false
  pub buffered : (d.gem_handle == 0) ≡ false
  pub on_crtc : (d.crtc_id == 0) ≡ false
  pub is_valid : d.valid ≡ true
  pub hardware : d.software_mode ≡ false
  pub size : (d.width ≡ w) × (d.height ≡ h) × (d.refresh_rate ≡ refresh)

-- A display that holds nothing.
pub record IsReleased (d : HeadlessDisplay) (held base : List Resource) : Type 0 where
  pub closed : d.drm_fd ≡ none
  pub holds : held ≡ base
  pub unframed : d.framebuffer_id ≡ 0
  pub freed : d.gem_handle ≡ 0

abbrev pub Ends : Result → List Resource → (w h refresh : ℕ) → Type 0
Ends (d, held, true) base w h refresh = IsSetUp d held base w h refresh
Ends (d, held, false) base w h refresh = IsReleased d held base

-- Releasing a display gives back what it holds, at each stage of its set-up.
pub cleanup_full :
    (d : HeadlessDisplay) (fd : ℕ) (base : List Resource)
    → d.drm_fd ≡ some fd
    → (d.framebuffer_id == 0) ≡ false
    → (d.gem_handle == 0) ≡ false
    → let (t, left) =
        cleanup d (framebuffer fd d.framebuffer_id ∷ buffer fd d.gem_handle ∷ card fd ∷ base) in
      IsReleased t left base
unfolding cleanup
cleanup_full d fd base opened framed buffered = record {
  closed = ground arith;
  holds = ground (
    arith,
    release-acquire (framebuffer fd d.framebuffer_id) (buffer fd d.gem_handle ∷ card fd ∷ base),
    release-acquire (buffer fd d.gem_handle) (card fd ∷ base),
    release-acquire (card fd) base,
  );
  unframed = ground arith;
  freed = ground arith;
}

pub cleanup_buffered :
    (d : HeadlessDisplay) (fd : ℕ) (base : List Resource)
    → d.drm_fd ≡ some fd
    → d.framebuffer_id ≡ 0
    → (d.gem_handle == 0) ≡ false
    → let (t, left) = cleanup d (buffer fd d.gem_handle ∷ card fd ∷ base) in IsReleased t left base
unfolding cleanup
cleanup_buffered d fd base opened unframed buffered = record {
  closed = ground arith;
  holds = ground (
    arith,
    release-acquire (buffer fd d.gem_handle) (card fd ∷ base),
    release-acquire (card fd) base,
  );
  unframed = ground arith;
  freed = ground arith;
}

pub cleanup_opened :
    (d : HeadlessDisplay) (fd : ℕ) (base : List Resource)
    → d.drm_fd ≡ some fd
    → d.framebuffer_id ≡ 0
    → d.gem_handle ≡ 0
    → let (t, left) = cleanup d (card fd ∷ base) in IsReleased t left base
unfolding cleanup
cleanup_opened d fd base opened unframed freed = record {
  closed = ground arith;
  holds = ground (arith, release-acquire (card fd) base);
  unframed = ground arith;
  freed = ground arith;
}
