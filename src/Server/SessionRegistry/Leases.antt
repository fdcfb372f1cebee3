-- ===== src/Server/SessionRegistry/Leases.antt =====
-- Through any claims, moves and ends of leases, the registry has the names of the open leases, once each.
use kung_fu_chess.Prelude.{
  string_eq, string_eq_lem, string_eq_self, ℕ, ◌+◌, ◌-◌, ◌≤◌, ◌≡◌, refl, true, false, Bool-cases,
  inl, inr, if◌then◌else◌, Option, none, some, List, [], ◌∷◌, ◌++◌, length, arith,
}
use kung_fu_chess.Server.Audience.{Name}
use kung_fu_chess.Server.SessionRegistry.Defs.{
  SessionRegistry, Lease, new_registry, is_live, erase_name, claim, release, destroy, move_from,
  assign, live_count,
}

-- How often a name is on a list.
abbrev pub listed : Name → List Name → ℕ
listed key [] = 0
listed key (x ∷ xs) = if string_eq key x then 1 + listed key xs else listed key xs

-- How many open leases are of the name, and how many are open.
abbrev pub holders : Name → List Lease → ℕ
holders key [] = 0
holders key (l ∷ ls) =
    if l.has_registry
    then (if string_eq key l.username then 1 + holders key ls else holders key ls)
    else holders key ls

abbrev pub open_leases : List Lease → ℕ
open_leases [] = 0
open_leases (l ∷ ls) = if l.has_registry then 1 + open_leases ls else open_leases ls

pub record Exact (ls : List Lease) (r : SessionRegistry) : Type 0 where
  pub same : (key : Name) → listed key r.live ≡ holders key ls
  pub at_most_one : (key : Name) → holders key ls ≤ 1
  pub size : live_count r ≡ open_leases ls

is_live-listed : (key : Name) (xs : List Name) → is_live key xs ≡ false → listed key xs ≡ 0
unfolding is_live
is_live-listed key [] e = refl
is_live-listed key (x ∷ xs) e = ground (arith, is_live-listed key xs)

listed-is_live : (key : Name) (xs : List Name) → is_live key xs ≡ true → 1 ≤ listed key xs
unfolding is_live
listed-is_live key [] e = cc
listed-is_live key (x ∷ xs) e = ground (arith, listed-is_live key xs)

listed-erase_name :
    (k key : Name) (xs : List Name)
    → listed k (erase_name key xs) ≡ (if string_eq k key then listed k xs - 1 else listed k xs)
unfolding erase_name
listed-erase_name k key [] = ground arith
listed-erase_name k key (x ∷ xs) = ground (
  arith,
  listed-erase_name k key xs,
  string_eq_lem key x,
  string_eq_lem k key,
  string_eq_lem k x,
  string_eq_self k,
  string_eq_self key,
)

length-erase_name :
    (key : Name) (xs : List Name) → 1 ≤ listed key xs → length (erase_name key xs) + 1 ≡ length xs
unfolding erase_name
length-erase_name key [] h = absurd (omega arith)
length-erase_name key (x ∷ xs) h = ground (arith, length-erase_name key xs)

holders-append :
    (key : Name) (xs ys : List Lease) → holders key (xs ++ ys) ≡ holders key xs + holders key ys
holders-append key [] ys = omega arith
holders-append key (x ∷ xs) ys = ground (arith, holders-append key xs ys)

open_leases-append : (xs ys : List Lease) → open_leases (xs ++ ys) ≡ open_leases xs + open_leases ys
open_leases-append [] ys = omega arith
open_leases-append (x ∷ xs) ys = ground (arith, open_leases-append xs ys)

-- A claim is refused when someone holds the name, and changes nothing; or it is granted, nobody held the
-- name, and the registry is exact with the new lease.
abbrev pub Claims : Name → List Lease → SessionRegistry → Option Lease × SessionRegistry → Type 0
Claims key ls r (none, q) = (holders key ls ≡ 1) × (q ≡ r)
Claims key ls r (some l, q) = (holders key ls ≡ 0) × (l.username ≡ key) × Exact (l ∷ ls) q

claim-Claims :
    (key : Name) (ls : List Lease) (r : SessionRegistry)
    → Exact ls r
    → Claims key ls r (claim key r)
unfolding claim live_count
claim-Claims key ls r x = elim (Bool-cases (is_live key r.live)) [
  | inl taken ↦
      rw (taken, claim)
        (omega (arith, listed-is_live key r.live taken, x.same key, x.at_most_one key), refl)
  | inr free ↦
      let nobody : holders key ls ≡ 0 = omega (arith, is_live-listed key r.live free, x.same key) in
      rw (free, claim)
        (
          nobody,
          refl,
          record {
            same = λ k. ground (arith, x.same k);
            at_most_one = λ k. ground (arith, x.at_most_one k, nobody, string_eq_lem k key);
            size = omega (arith, x.size);
          },
        )
]

destroy-Exact :
    (l : Lease) (ls : List Lease) (r : SessionRegistry) → Exact (l ∷ ls) r → Exact ls (destroy l r)
unfolding destroy release live_count
destroy-Exact l ls r x = elim (Bool-cases l.has_registry) [
  | inl held ↦
      let s = x.same l.username in
      rw (held, destroy)
        (record {
          same = λ k. ground (arith, x.same k, listed-erase_name k l.username r.live);
          at_most_one = λ k. ground (arith, x.at_most_one k);
          size =
              ground
                (arith, x.size, s, length-erase_name l.username r.live, string_eq_self l.username);
        })
  | inr empty ↦
      rw (empty, destroy)
        (record {
          same = λ k. ground (arith, x.same k);
          at_most_one = λ k. ground (arith, x.at_most_one k);
          size = ground (arith, x.size);
        })
]

-- What can happen to the leases of a registry, listed in any order.
pub data Step : List Lease → SessionRegistry → List Lease → SessionRegistry → Type 0 where
  claims :
      (key : Name) (ls : List Lease) (l : Lease) (r q : SessionRegistry)
      → claim key r ≡ (some l, q)
      → Step ls r (l ∷ ls) q
  destroys : (l : Lease) (ls : List Lease) (r : SessionRegistry) → Step (l ∷ ls) r ls (destroy l r)
  moves :
      (l : Lease) (ls : List Lease) (r : SessionRegistry)
      → Step (l ∷ ls) r ((move_from l).0 ∷ (move_from l).1 ∷ ls) r
  assigns :
      (a b : Lease) (ls : List Lease) (r : SessionRegistry)
      → Step (a ∷ b ∷ ls) r ((assign a b r).0 ∷ (assign a b r).1 ∷ ls) (assign a b r).2
  swaps :
      (xs ys : List Lease) (a b : Lease) (r : SessionRegistry)
      → Step (xs ++ a ∷ b ∷ ys) r (xs ++ b ∷ a ∷ ys) r

pub data Reach : List Lease → SessionRegistry → Type 0 where
  begins : Reach [] new_registry
  goes_on : {ls ks : List Lease} {r q : SessionRegistry} → Reach ls r → Step ls r ks q → Reach ks q

same_leases :
    (ls ks : List Lease) (r : SessionRegistry)
    → ((key : Name) → holders key ks ≡ holders key ls)
    → open_leases ks ≡ open_leases ls
    → Exact ls r
    → Exact ks r
same_leases ls ks r h o x = record {
  same = λ k. omega (arith, x.same k, h k);
  at_most_one = λ k. omega (arith, x.at_most_one k, h k);
  size = omega (arith, x.size, o);
}

granted :
    (key : Name) (ls : List Lease) (l : Lease) (r q : SessionRegistry)
    (c : Option Lease × SessionRegistry)
    → c ≡ (some l, q)
    → Claims key ls r c
    → Exact (l ∷ ls) q
granted key ls l r q (none, p) e c = absurd (cc)
granted key ls l r q (some k, p) e (_, _, x) =
    let same_lease : k ≡ l = cc in
    let same_registry : p ≡ q = cc in rw (← same_lease, ← same_registry) x

Step-Exact : {ls ks : List Lease} {r q : SessionRegistry} → Step ls r ks q → Exact ls r → Exact ks q
unfolding move_from assign
Step-Exact (claims key ls l r q e) x =
    granted key ls l r q (claim key r) e (claim-Claims key ls r x)
Step-Exact (destroys l ls r) x = destroy-Exact l ls r x
Step-Exact (moves l ls r) x = same_leases (l ∷ ls) _ r (λ k. refl) refl x
Step-Exact (assigns a b ls r) x =
    same_leases (b ∷ ls) _ (destroy a r) (λ k. refl) refl (destroy-Exact a (b ∷ ls) r x)
Step-Exact (swaps xs ys a b r) x =
    same_leases (xs ++ a ∷ b ∷ ys) _ r
      (λ k. ground (arith, holders-append k xs (a ∷ b ∷ ys), holders-append k xs (b ∷ a ∷ ys)))
      (ground (arith, open_leases-append xs (a ∷ b ∷ ys), open_leases-append xs (b ∷ a ∷ ys))) x

Reach-Exact : {ls : List Lease} {r : SessionRegistry} → Reach ls r → Exact ls r
unfolding live_count
Reach-Exact begins = record { same = λ k. refl; at_most_one = λ k. omega arith; size = refl }
Reach-Exact (goes_on t s) = Step-Exact s (Reach-Exact t)

-- Whatever claims, moves, assignments and ends of leases have led to a registry: it has the names of the
-- open leases, once each, and counts them; and a claim is granted exactly when nobody holds the name.
pub Reach-Claims :
    (ls : List Lease) (r : SessionRegistry) (key : Name)
    → Reach ls r
    → Exact ls r × Claims key ls r (claim key r)
Reach-Claims ls r key t = (Reach-Exact t, claim-Claims key ls r (Reach-Exact t))
