-- ===== src/Headless/Detect.antt =====
-- The searches of /dev/dri in src/platform/linux/headless.cpp.
use midnight_sun.Prelude.{
  Bool, true, false, not, ◌&&◌, ◌||◌, ◌≡◌, refl, Option, none, some, List, [], ◌∷◌, if◌then◌else◌,
  arith, Option-cases, inl, inr,
}
use midnight_sun.Prelude.Maps.{Bytes}
use midnight_sun.Headless.{
  Resource, card, framebuffer, buffer, same, release, System, is_gamescope_active, is_card, is_vkms,
  returned, threw,
}
use midnight_sun.Headless.Display.{search_cards, has_display, search_displays, is_headless}

pub same_refl : (r : Resource) → same r r ≡ true
same_refl (card fd) = ground arith
same_refl (framebuffer fd id) = ground arith
same_refl (buffer fd handle) = ground arith

-- What has just been acquired is released.
pub release-acquire : (r : Resource) (held : List Resource) → release r (r ∷ held) ≡ held
release-acquire r held = ground (arith, same_refl r)

-- A file among the names that is a card, can be opened for the search, and is driven by vkms.
abbrev pub is_candidate : System → Bytes → Bool
is_candidate sys file =
    is_card file
    && elim (sys.open_to_search file) [ none ↦ false | some fd ↦ true ]
    && is_vkms (sys.device file)

abbrev pub first_candidate : System → List Bytes → Option Bytes
first_candidate sys [] = none
first_candidate sys (file ∷ files) =
    let rest = first_candidate sys files in if is_candidate sys file then some file else rest

-- The search closes every card that it opens, and finds the first file that is a card, can be opened and is
-- driven by vkms.
pub search_cards_lem :
    (sys : System) (files : List Bytes) (held : List Resource)
    → search_cards sys files held ≡ (held, first_candidate sys files)
search_cards_lem sys [] held = refl
search_cards_lem sys (file ∷ files) held = elim (Option-cases (sys.open_to_search file)) [
  | inl closed ↦ ground (arith, search_cards_lem sys files held)
  | inr (fd, opened) ↦
      ground (arith, search_cards_lem sys files held, release-acquire (card fd) held)
]

-- A file that is a card, can be opened, is not driven by vkms, and has a connected connector.
abbrev pub is_physical : System → Bytes → Bool
is_physical sys file =
    is_card file
    && elim (sys.open_to_use file) [ none ↦ false | some fd ↦ true ]
    && not (is_vkms (sys.device file))
    && has_display (sys.device file)

abbrev pub any_physical : System → List Bytes → Bool
any_physical sys [] = false
any_physical sys (file ∷ files) = is_physical sys file || any_physical sys files

search_displays_lem :
    (sys : System) (files : List Bytes) (held : List Resource)
    → search_displays sys files held ≡ (held, not (any_physical sys files))
search_displays_lem sys [] held = refl
search_displays_lem sys (file ∷ files) held = elim (Option-cases (sys.open_to_use file)) [
  | inl closed ↦ ground (arith, search_displays_lem sys files held)
  | inr (fd, opened) ↦
      ground (arith, search_displays_lem sys files held, release-acquire (card fd) held)
]

-- The system is headless just when Gamescope is not active and no card that can be opened, other than those of
-- vkms, has a connected connector, where a system without /dev/dri has no cards. Every card that is opened is
-- closed, also where the search stops early. If /dev/dri is there and must be read but cannot, it throws.
pub is_headless_lem :
    (sys : System) (held : List Resource)
    → is_headless sys held ≡ (
        if not (is_gamescope_active sys) && sys.has_dri && not sys.lists_dri
        then threw held
        else returned (
          held,
          not (is_gamescope_active sys) && (not sys.has_dri || not (any_physical sys sys.entries)),
        ))
unfolding is_headless
is_headless_lem sys held = ground (arith, search_displays_lem sys sys.entries held)
