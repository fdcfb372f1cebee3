-- ===== src/Server/Rooms/Entries.antt =====
-- The waiting list through `emplace` and `erase_entry`.
use kung_fu_chess.Prelude.{
  ℕ, ◌+◌, ◌-◌, ◌≤◌, ◌≡◌, refl, ap, ◌⊎◌, inl, inr, false, ◌==◌, ltb, if◌then◌else◌, Bool-cases, List,
  [], ◌∷◌, ◌∈◌, arith,
}
use kung_fu_chess.Server.Rooms.Waiting.{Entry, emplace, erase_entry}
use kung_fu_chess.Server.Rooms.Closest.{Rises}
use kung_fu_chess.Server.Rooms.Invariant.{times_waiting}

Rises-le : (lo hi : ℕ) (es : List Entry) → lo ≤ hi → Rises hi es → Rises lo es
Rises-le lo hi [] h s = tt
Rises-le lo hi ((r, i) ∷ es) h (le, s) = (omega (arith, h, le), s)

pub Rises-emplace :
    (lo rating id : ℕ) (es : List Entry)
    → lo ≤ rating
    → Rises lo es
    → Rises lo (emplace rating id es)
unfolding emplace
Rises-emplace lo rating id [] h s = (h, tt)
Rises-emplace lo rating id ((r, i) ∷ es) h (le, s) = elim (Bool-cases (ltb rating r)) [
  | inl before ↦ rw (before, emplace) (h, (ground arith, s))
  | inr behind ↦ rw (behind, emplace) (le, Rises-emplace r rating id es (ground arith) s)
]

pub times-emplace :
    (k rating id : ℕ) (es : List Entry)
    → times_waiting k (emplace rating id es)
      ≡ (if id == k then 1 + times_waiting k es else times_waiting k es)
unfolding emplace
times-emplace k rating id [] = refl
times-emplace k rating id ((r, i) ∷ es) = ground (arith, times-emplace k rating id es)

pub of_emplace :
    (e : Entry) (rating id : ℕ) (es : List Entry)
    → e ∈ emplace rating id es
    → (e ≡ (rating, id)) ⊎ (e ∈ es)
unfolding emplace
of_emplace e rating id [] (inl q) = inl q
of_emplace e rating id [] (inr m) = absurd m
of_emplace e rating id ((r, i) ∷ es) m = elim (Bool-cases (ltb rating r)) [
  | inl before ↦ elim (rw (before, emplace) at m) [ inl q ↦ inl q | inr w ↦ inr w ]
  | inr behind ↦ elim (rw (behind, emplace) at m) [
    | inl q ↦ inr (inl q)
    | inr w ↦ elim (of_emplace e rating id es w) [ inl q ↦ inl q | inr v ↦ inr (inr v) ]
  ]
]

pub Rises-erase_entry :
    (lo rating id : ℕ) (es : List Entry) → Rises lo es → Rises lo (erase_entry rating id es)
unfolding erase_entry
Rises-erase_entry lo rating id [] s = tt
Rises-erase_entry lo rating id ((r, i) ∷ es) (le, s) =
    let rest = Rises-erase_entry r rating id es s in
    let skipped = Rises-le lo r es le s in ground arith

pub of_erase_entry :
    (e : Entry) (rating id : ℕ) (es : List Entry) → e ∈ erase_entry rating id es → e ∈ es
unfolding erase_entry
of_erase_entry e rating id [] m = m
of_erase_entry e rating id ((r, i) ∷ es) m =
    let rest = of_erase_entry e rating id es in ground arith

pub times-erase_entry :
    (k rating id : ℕ) (es : List Entry)
    → times_waiting k (erase_entry rating id es) ≤ times_waiting k es
unfolding erase_entry
times-erase_entry k rating id [] = omega arith
times-erase_entry k rating id ((r, i) ∷ es) = ground (arith, times-erase_entry k rating id es)

-- When every entry of the room has that rating, one of them goes.
times-erased :
    (rating id : ℕ) (es : List Entry)
    → ((e : Entry) → e ∈ es → e.1 ≡ id → e.0 ≡ rating)
    → times_waiting id (erase_entry rating id es) ≡ times_waiting id es - 1
unfolding erase_entry
times-erased rating id [] h = refl
times-erased rating id ((r, i) ∷ es) h =
    let rest = times-erased rating id es (λ e m. h e (inr m)) in
    let first = h (r, i) (inl refl) in ground arith

none_waiting :
    (id : ℕ) (es : List Entry) (e : Entry) → times_waiting id es ≡ 0 → e ∈ es → (e.1 == id) ≡ false
none_waiting id [] e h m = absurd m
none_waiting id ((r, i) ∷ es) e h (inl q) = ground (arith, ap (λ x. x.1) q)
none_waiting id ((r, i) ∷ es) e h (inr m) = none_waiting id es e (ground arith) m

pub erased :
    (rating id : ℕ) (es : List Entry) (e : Entry)
    → ((d : Entry) → d ∈ es → d.1 ≡ id → d.0 ≡ rating)
    → times_waiting id es ≤ 1
    → e ∈ erase_entry rating id es
    → (e.1 == id) ≡ false
erased rating id es e h once m =
    none_waiting id (erase_entry rating id es) e (omega (arith, times-erased rating id es h, once))
      m

pub not_waiting :
    (id : ℕ) (es : List Entry)
    → ((e : Entry) → e ∈ es → (e.1 == id) ≡ false)
    → times_waiting id es ≡ 0
not_waiting id [] h = refl
not_waiting id ((r, i) ∷ es) h = rw (h (r, i) (inl refl)) (not_waiting id es (λ e m. h e (inr m)))
