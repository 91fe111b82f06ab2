-- ===== src/Version/Ordered.antt =====
-- `Compare` of internal/gombit/version.go orders the versions.
use gombit_forge.Prelude.{◌≡◌, ◌<◌, ◌≤◌, true, arith, ◌↔◌, ◌⊎◌}
use gombit_forge.Version.{Version, compare, compare_pairs, at_least}

-- The order of versions: by the first component that differs.
abbrev pub IsAtLeast : Version → Version → Type 0
IsAtLeast v w =
    (w.major < v.major)
    ⊎ ((v.major ≡ w.major) × ((w.minor < v.minor) ⊎ ((v.minor ≡ w.minor) × (w.patch ≤ v.patch))))

-- `AtLeast` holds exactly when the version is as recent by the first component that differs.
pub at_least-IsAtLeast : (v w : Version) → (at_least v w ≡ true) ↔ IsAtLeast v w
unfolding compare compare_pairs
at_least-IsAtLeast v w = ground arith
