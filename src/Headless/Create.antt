-- ===== src/Headless/Create.antt =====
-- The creation and the destruction of the virtual display in src/platform/linux/headless.cpp.
use midnight_sun.Prelude.{
  ℕ, Bool, true, false, not, ◌&&◌, ◌≡◌, refl, ap, ◌∙◌, Option, none, some, List, Bool-cases, ◌⊎◌,
  inl, inr,
}
use midnight_sun.Prelude.Maps.{Bytes}
use midnight_sun.Headless.{
  Resource, System, HeadlessDisplay, new_display, is_gamescope_active, Outcome, returned, threw,
}
use midnight_sun.Headless.Display.{
  cleanup, Result, setup_vkms, setup_software, or_software, or_thrown, create,
}
use midnight_sun.Headless.SetUp.{NonZero, IsSetUp, Ends, cleanup_full}
use midnight_sun.Headless.Stages.{setup_vkms-Ends, throws, EndsOrThrows}

-- A display that streaming can use: valid, of the size asked for, set up on a card or in software mode holding
-- nothing of the kernel's.
pub record IsUsable (d : HeadlessDisplay) (left held : List Resource) (w h refresh : ℕ)
    : Type 0 where
  pub is_valid : d.valid ≡ true
  pub size : (d.width ≡ w) × (d.height ≡ h) × (d.refresh_rate ≡ refresh)
  pub backed :
      ((d.software_mode ≡ true) × (d.drm_fd ≡ none) × (left ≡ held))
      ⊎ ((d.software_mode ≡ false) × IsSetUp d left held w h refresh)
  pub released : (cleanup d left).1 ≡ held

abbrev pub Created :
    Option HeadlessDisplay × List Resource → List Resource → (w h refresh : ℕ) → Type 0
Created (o, left) held w h refresh =
    (d : HeadlessDisplay) × (o ≡ some d) × IsUsable d left held w h refresh

in_software :
    (d : HeadlessDisplay) (left held : List Resource) (w h refresh : ℕ)
    → d.drm_fd ≡ none
    → left ≡ held
    → IsUsable (setup_software d w h refresh).0 left held w h refresh
unfolding setup_software cleanup
in_software d left held w h refresh closed same_held = record {
  is_valid = refl;
  size = (refl, refl, refl);
  backed = inl (refl, closed, same_held);
  released = rw (closed) same_held;
}

on_card :
    (d : HeadlessDisplay) (left held : List Resource) (w h refresh : ℕ)
    → IsSetUp d left held w h refresh
    → IsUsable d left held w h refresh
on_card d left held w h refresh s = record {
  is_valid = s.is_valid;
  size = s.size;
  backed = inr (s.hardware, s);
  released =
      ap (λ l. (cleanup d l).1) s.holds
      ∙ (cleanup_full d s.fd held s.opened s.framed s.buffered).holds;
}

or_software-Created :
    (r : Result) (held : List Resource) (w h refresh : ℕ)
    → Ends r held w h refresh
    → Created (or_software r w h refresh) held w h refresh
unfolding setup_software
or_software-Created (d, left, true) held w h refresh s =
    (d, refl, on_card d left held w h refresh s)
or_software-Created (d, left, false) held w h refresh e =
    ((setup_software d w h refresh).0, refl, in_software d left held w h refresh e.closed e.holds)

-- How `create` ends.
abbrev pub CreatedOrThrows :
    Bool
    → Outcome (Option HeadlessDisplay × List Resource)
    → List Resource
    → (w h refresh : ℕ) → Type 0
CreatedOrThrows thrown (returned r) held w h refresh = (thrown ≡ false) × Created r held w h refresh
CreatedOrThrows thrown (threw left) held w h refresh = (thrown ≡ true) × (left ≡ held)

or_thrown-Created :
    (thrown : Bool) (o : Outcome Result) (held : List Resource) (w h refresh : ℕ)
    → EndsOrThrows thrown o held w h refresh
    → CreatedOrThrows thrown (or_thrown o w h refresh) held w h refresh
unfolding cleanup
or_thrown-Created thrown (returned r) held w h refresh (calm, e) =
    (calm, or_software-Created r held w h refresh e)
or_thrown-Created thrown (threw left) held w h refresh e = e

-- If the kernel gives no id that is 0, `create` gives a display or throws. It throws just where Gamescope is not
-- active, vkms is available and /dev/dri cannot be read, and then nothing more is held than before. Otherwise
-- it gives a display, whatever other call of the kernel fails. The display is valid and of the size asked for,
-- and either it is set up on a card or it is in software mode and nothing more is held than before; its
-- destruction gives back just what its creation took.
pub create-Created :
    (sys : System) (held : List Resource) (w h refresh : ℕ)
    → ((path : Bytes) → NonZero (sys.device path))
    → CreatedOrThrows
        (not (is_gamescope_active sys) && throws sys)
        (create sys held w h refresh)
        held
        w
        h
        refresh
unfolding create setup_software
create-Created sys held w h refresh nz = elim (Bool-cases (is_gamescope_active sys)) [
  | inl active ↦ rw active (
    refl,
    (
      (setup_software new_display w h refresh).0,
      refl,
      in_software new_display held held w h refresh refl refl,
    ),
  )
  | inr inactive ↦ rw inactive (
      or_thrown-Created (throws sys) (setup_vkms sys new_display held w h refresh) held w h refresh
        (setup_vkms-Ends sys held w h refresh nz))
]
