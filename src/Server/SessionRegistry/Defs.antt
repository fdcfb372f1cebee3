-- ===== src/Server/SessionRegistry/Defs.antt =====
-- session_registry.cpp: who is logged in, and the leases that say so. The std::set is a list in which the
-- order means nothing; a registry pointer is set or null.
use kung_fu_chess.Prelude.{
  string_eq, ℕ, Bool, true, false, if◌then◌else◌, Option, none, some, List, [], ◌∷◌, length,
}
use kung_fu_chess.Server.Audience.{Name}

pub record SessionRegistry : Type 0 where
  pub live : List Name

pub record Lease : Type 0 where
  pub has_registry : Bool
  pub username : Name

abbrev pub new_registry : SessionRegistry
new_registry = record { live = [] }

unfoldable pub is_live : Name → List Name → Bool
unfolding string_eq
is_live key [] = false
is_live key (x ∷ xs) = let rest = is_live key xs in if string_eq key x then true else rest

unfoldable pub erase_name : Name → List Name → List Name
unfolding string_eq
erase_name key [] = []
erase_name key (x ∷ xs) = let rest = erase_name key xs in if string_eq key x then xs else x ∷ rest

unfoldable pub claim : Name → SessionRegistry → Option Lease × SessionRegistry
unfolding is_live
claim key r =
    if is_live key r.live
    then (none, r)
    else (some (record { has_registry = true; username = key }), record { live = key ∷ r.live })

unfoldable pub release : Name → SessionRegistry → SessionRegistry
unfolding erase_name
release key r = record { live = erase_name key r.live }

-- ~Lease.
unfoldable pub destroy : Lease → SessionRegistry → SessionRegistry
unfolding release
destroy l r = if l.has_registry then release l.username r else r

-- The move constructor: the new lease, and what is left of the other. A moved std::string is empty.
unfoldable pub move_from : Lease → Lease × Lease
move_from other = (other, record { has_registry = false; username = [] })

-- The move assignment of another lease to this one.
unfoldable pub assign : Lease → Lease → SessionRegistry → Lease × Lease × SessionRegistry
unfolding destroy
assign this other r = (other, record { has_registry = false; username = [] }, destroy this r)

unfoldable pub live_count : SessionRegistry → ℕ
live_count r = length r.live
