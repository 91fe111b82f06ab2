-- ===== src/Org/Store/Inherited.antt =====
-- The capabilities that a redeemed invitation gives.
use gombit_forge.Prelude.{◌≡◌, true}
use gombit_forge.Org.Roles.{Role, Capability, cap_members_invite, can}

-- A role that may invite, and with every capability of the other.
abbrev pub Covers : Role → Role → Type 0
Covers granter role =
    (can granter cap_members_invite ≡ true)
    × ((capability : Capability) → can role capability ≡ true → can granter capability ≡ true)
