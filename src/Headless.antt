-- ===== src/Headless.antt =====
-- The virtual display of src/platform/linux/headless.cpp: the search for a card, its set-up, its release, and
-- the choice of headless mode. A file name is a list of bytes.
pub mod Display
pub mod Detect
pub mod SetUp
pub mod Stages
pub mod Create
pub mod Capture
mod Tests
use midnight_sun.Prelude.{
  ℕ, zero, suc, ◌+◌, ◌-◌, ◌*◌, ◌/◌, ◌%◌, ◌^◌, Bool, true, false, not, ◌&&◌, ◌||◌, Option, none,
  some, List, [], ◌∷◌, ltb, ◌==◌, if◌then◌else◌, take,
}
use midnight_sun.Prelude.Maps.{Bytes, eq_bytes}

-- What the process holds of the kernel's: a file descriptor of a card, a framebuffer and a buffer of one.
pub data Resource : Type 0 where
  card : (fd : ℕ) → Resource
  framebuffer : (fd id : ℕ) → Resource
  buffer : (fd handle : ℕ) → Resource

abbrev pub same : Resource → Resource → Bool
same (card fd) (card fd') = fd == fd'
same (framebuffer fd id) (framebuffer fd' id') = fd == fd' && id == id'
same (buffer fd handle) (buffer fd' handle') = fd == fd' && handle == handle'
same _ _ = false

-- Releasing what is not held does nothing.
abbrev pub release : Resource → List Resource → List Resource
release r [] = []
release r (x ∷ held) = if same r x then held else x ∷ release r held

pub record Connector : Type 0 where
  pub connector_id : ℕ
  pub connected : Bool  -- connection == DRM_MODE_CONNECTED
  pub encoders : List ℕ

pub record Plane : Type 0 where
  pub plane_id : ℕ
  pub possible_crtcs : ℕ

pub record Resources : Type 0 where
  pub connectors : List ℕ
  pub crtcs : List ℕ

-- `drmModeModeInfo`, the fields that are set.
pub record Mode : Type 0 where
  pub clock : ℕ
  pub hdisplay : ℕ
  pub hsync_start : ℕ
  pub hsync_end : ℕ
  pub htotal : ℕ
  pub vdisplay : ℕ
  pub vsync_start : ℕ
  pub vsync_end : ℕ
  pub vtotal : ℕ
  pub vrefresh : ℕ

-- What libdrm answers for one card, the same each time; none where it gives a null pointer or an error.
pub record Device : Type 0 where
  pub driver : Option Bytes  -- drmGetVersion
  pub resources : Option Resources
  pub get_connector : ℕ → Option Connector
  pub get_encoder : ℕ → Option ℕ  -- the id of its CRTC
  pub create_dumb : (width height : ℕ) → Option (ℕ × ℕ)  -- handle and pitch
  pub add_fb2 : (handle pitch : ℕ) → Option ℕ
  pub add_fb : (handle pitch : ℕ) → Option ℕ
  pub planes : Option (List ℕ)
  pub get_plane : ℕ → Option Plane
  pub set_crtc : (crtc framebuffer connector : ℕ) → Mode → Bool

-- The rest of the system. A card is opened once while the directory is searched and once to be used.
pub record System : Type 0 where
  pub gamescope_variables : List Bool  -- whether each of the four variables is set
  pub gamescope_socket : Option Bool  -- whether the socket is there, if XDG_RUNTIME_DIR is set
  pub environ : Option Bytes  -- /proc/self/environ, if it can be read
  pub vkms_loaded : Bool
  pub modprobe : Bool  -- whether `modprobe vkms` succeeds
  pub vkms_loaded_after : Bool
  pub has_dri : Bool  -- whether /dev/dri is there
  pub lists_dri : Bool  -- whether `directory_iterator` can read it, and otherwise throws
  pub entries : List Bytes  -- its file names
  pub open_to_search : Bytes → Option ℕ
  pub open_to_use : Bytes → Option ℕ
  pub device : Bytes → Device

pub record HeadlessDisplay : Type 0 where
  pub drm_fd : Option ℕ  -- none for -1
  pub connector_id : ℕ
  pub crtc_id : ℕ
  pub encoder_id : ℕ
  pub framebuffer_id : ℕ
  pub plane_id : ℕ
  pub gem_handle : ℕ
  pub width : ℕ
  pub height : ℕ
  pub refresh_rate : ℕ
  pub valid : Bool
  pub software_mode : Bool

abbrev pub new_display : HeadlessDisplay
new_display = record {
  drm_fd = none;
  connector_id = 0;
  crtc_id = 0;
  encoder_id = 0;
  framebuffer_id = 0;
  plane_id = 0;
  gem_handle = 0;
  width = 0;
  height = 0;
  refresh_rate = 60;
  valid = false;
  software_mode = false;
}

abbrev pub is_any : List Bool → Bool
is_any [] = false
is_any (b ∷ bs) = b || is_any bs

abbrev pub is_prefix : Bytes → Bytes → Bool
is_prefix [] text = true
is_prefix (p ∷ ps) [] = false
is_prefix (p ∷ ps) (t ∷ ts) = p == t && is_prefix ps ts

-- `text.find(word) != npos`
abbrev pub contains : (word text : Bytes) → Bool
contains word [] = is_prefix word []
contains word (t ∷ ts) = is_prefix word (t ∷ ts) || contains word ts

abbrev pub gamescope_word : Bytes
gamescope_word = b'g' ∷ b'a' ∷ b'm' ∷ b'e' ∷ b's' ∷ b'c' ∷ b'o' ∷ b'p' ∷ b'e' ∷ []

unfoldable pub is_gamescope_active : System → Bool
is_gamescope_active sys =
    if is_any sys.gamescope_variables
    then true
    else if elim sys.gamescope_socket [ none ↦ false | some there ↦ there ]
    then true
    else elim sys.environ [ none ↦ false | some content ↦ contains gamescope_word content ]

unfoldable pub load_vkms_module : System → Bool
load_vkms_module sys =
    if sys.vkms_loaded then true else if not sys.modprobe then false else sys.vkms_loaded_after

unfoldable pub is_vkms_available : System → Bool
unfolding load_vkms_module
is_vkms_available sys = if sys.vkms_loaded then true else load_vkms_module sys

-- A name of fewer than four characters is not "card" either.
abbrev pub is_card : Bytes → Bool
is_card file = eq_bytes (take 4 file) (b'c' ∷ b'a' ∷ b'r' ∷ b'd' ∷ [])

abbrev pub is_vkms : Device → Bool
is_vkms dev = elim dev.driver [
  | none ↦ false
  | some name ↦ eq_bytes name (b'v' ∷ b'k' ∷ b'm' ∷ b's' ∷ [])
]

-- A call returns, or throws and leaves the process holding this.
pub data Outcome {ℓ} (A : Type ℓ) : Type ℓ where
  returned : A → Outcome A
  threw : List Resource → Outcome A
