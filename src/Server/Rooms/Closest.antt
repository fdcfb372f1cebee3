-- ===== src/Server/Rooms/Closest.antt =====
-- The two entries beside lower_bound are as good as all of them: a search of the whole waiting list
-- finds no smaller gap.
use kung_fu_chess.Prelude.{
  ℕ, ◌≤◌, ◌<◌, ◌≡◌, refl, sym, ◌∙◌, inl, inr, ltb, leb, leb→le, Bool-cases, if◌then◌else◌, Option,
  none, some, List, [], ◌∷◌, ◌∈◌, arith,
}
use kung_fu_chess.Server.Rooms.Waiting.{
  Entry, matchmaking_rating_gap, gap_of, consider, around, nearest, closest_waiting_room, room_of,
}

-- A search of the whole list for the smallest gap within the limit.
abbrev pub closer : ℕ → Option ℕ → Option ℕ
closer gap none = if leb gap matchmaking_rating_gap then some gap else none
closer gap (some best) =
    if leb gap matchmaking_rating_gap
    then (if ltb gap best then some gap else some best)
    else some best

unfoldable pub smallest_gap : ℕ → Option ℕ → List Entry → Option ℕ
smallest_gap rating best [] = best
smallest_gap rating best ((r, id) ∷ es) = smallest_gap rating (closer (gap_of r rating) best) es

-- Ratings that do not fall, from `lo` on.
abbrev pub Rises : ℕ → List Entry → Type 0
Rises lo [] = Unit
Rises lo ((r, id) ∷ es) = (lo ≤ r) × Rises r es

abbrev pub gap_found : Option (ℕ × ℕ) → Option ℕ
gap_found none = none
gap_found (some (gap, room)) = some gap

gap-consider :
    (rating r id : ℕ) (best : Option (ℕ × ℕ))
    → gap_found (consider rating (some (r, id)) best) ≡ closer (gap_of r rating) (gap_found best)
unfolding consider
gap-consider rating r id none = ground arith
gap-consider rating r id (some (g, room)) = ground arith

-- Nothing from lower_bound on improves on a gap that is no larger than its first.
no_better :
    (rating r g : ℕ) (es : List Entry)
    → rating ≤ r
    → Rises r es
    → g ≤ gap_of r rating
    → smallest_gap rating (some g) es ≡ some g
unfolding smallest_gap gap_of
no_better rating r g [] h s b = refl
no_better rating r g ((q, id) ∷ es) h (le, s) b =
    let rest = no_better rating q g es (omega (arith, h, le)) s (ground arith) in ground arith

too_far :
    (rating r : ℕ) (es : List Entry)
    → rating ≤ r
    → Rises r es
    → 100 < gap_of r rating
    → smallest_gap rating none es ≡ none
unfolding smallest_gap gap_of
too_far rating r [] h s b = refl
too_far rating r ((q, id) ∷ es) h (le, s) b =
    let rest = too_far rating q es (omega (arith, h, le)) s (ground arith) in ground arith

closer_twice : (g g0 : ℕ) → g ≤ g0 → closer g (closer g0 none) ≡ closer g none
closer_twice g g0 h = ground arith

gap_falls : (r0 r rating : ℕ) → r0 ≤ r → r < rating → gap_of r rating ≤ gap_of r0 rating
unfolding gap_of
gap_falls r0 r rating h k = ground arith

-- The two that are considered, as gaps.
abbrev beside : ℕ → Option Entry × Option Entry → Option ℕ
beside rating (before, lower) = gap_found (consider rating before (consider rating lower none))

past_lower :
    (rating r0 i0 r id : ℕ) (es : List Entry)
    → rating ≤ r
    → Rises r es
    → smallest_gap rating (closer (gap_of r rating) (closer (gap_of r0 rating) none)) es
      ≡ beside rating (some (r0, i0), some (r, id))
past_lower rating r0 i0 r id es h s =
    rw
      (
        gap-consider rating r0 i0 (consider rating (some (r, id)) none),
        gap-consider rating r id none,
      )
      (ground (
        arith,
        no_better rating r (gap_of r rating) es h s,
        no_better rating r (gap_of r0 rating) es h s,
        too_far rating r es h s,
      ))

around-smallest_gap :
    (rating r0 i0 : ℕ) (es : List Entry)
    → r0 < rating
    → Rises r0 es
    → smallest_gap rating (closer (gap_of r0 rating) none) es
      ≡ beside rating (around rating (some (r0, i0)) es)
unfolding smallest_gap around consider
around-smallest_gap rating r0 i0 [] h s = sym (gap-consider rating r0 i0 none)
around-smallest_gap rating r0 i0 ((r, id) ∷ es) h (le, s) = elim (Bool-cases (leb rating r)) [
  | inl here ↦ rw (here, around) (past_lower rating r0 i0 r id es (ground arith) s)
  | inr before ↦
      rw (before, around)
        (rw
          (closer_twice (gap_of r rating) (gap_of r0 rating)
            (gap_falls r0 r rating le (ground arith)))
          (around-smallest_gap rating r id es (ground arith) s))
]

nearest-smallest_gap :
    (rating : ℕ) (es : List Entry)
    → Rises 0 es
    → gap_found (nearest rating es) ≡ smallest_gap rating none es
unfolding nearest smallest_gap around
nearest-smallest_gap rating [] s = refl
nearest-smallest_gap rating ((r, id) ∷ es) (le, s) = elim (Bool-cases (leb rating r)) [
  | inl here ↦
      rw (here, around)
        (gap-consider rating r id none
          ∙ ground (
            arith,
            no_better rating r (gap_of r rating) es (leb→le rating r here) s,
            too_far rating r es (leb→le rating r here) s,
          ))
  | inr before ↦ rw (before, around) (sym (around-smallest_gap rating r id es (ground arith) s))
]

-- The pair found is the gap and the room of an entry.
abbrev pub IsEntry : ℕ → List Entry → Option (ℕ × ℕ) → Type 0
IsEntry rating es none = Unit
IsEntry rating es (some (gap, room)) =
    (r : ℕ) × (((r, room)) ∈ es) × (gap ≡ gap_of r rating) × (gap ≤ 100)

abbrev IsOf : List Entry → Option Entry → Type 0
IsOf es none = Unit
IsOf es (some e) = e ∈ es

consider-IsEntry :
    (rating : ℕ) (es : List Entry) (e : Option Entry) (best : Option (ℕ × ℕ))
    → IsOf es e
    → IsEntry rating es best
    → IsEntry rating es (consider rating e best)
unfolding consider
consider-IsEntry rating es none best h b = b
consider-IsEntry rating es (some (r, id)) none h b = elim (Bool-cases (leb (gap_of r rating) 100)) [
  | inl y ↦ rw (y, consider) (r, h, refl, leb→le (gap_of r rating) 100 y)
  | inr n ↦ rw (n, consider) tt
]
consider-IsEntry rating es (some (r, id)) (some (g, room)) h b =
    elim (Bool-cases (leb (gap_of r rating) 100)) [
      | inl y ↦ elim (Bool-cases (ltb (gap_of r rating) g)) [
        | inl l ↦ rw (y, l, consider) (r, h, refl, leb→le (gap_of r rating) 100 y)
        | inr m ↦ rw (y, m, consider) b
      ]
      | inr n ↦ rw (n, consider) b
    ]

around-IsOf :
    (rating : ℕ) (before : Option Entry) (all es : List Entry)
    → IsOf all before
    → ((e : Entry) → e ∈ es → e ∈ all)
    → IsOf all (around rating before es).0 × IsOf all (around rating before es).1
unfolding around
around-IsOf rating before all [] b h = (b, tt)
around-IsOf rating before all ((r, id) ∷ es) b h = elim (Bool-cases (leb rating r)) [
  | inl here ↦ rw (here, around) (b, h (r, id) (inl refl))
  | inr past ↦
      rw (past, around)
        (around-IsOf rating (some (r, id)) all es (h (r, id) (inl refl)) (λ e m. h e (inr m)))
]

-- A waiting list in the order of its ratings: the gap that the two entries beside lower_bound give is
-- the smallest within the limit that a search of the whole list finds, none when that finds none, and
-- it is the gap of an entry of the list, of the room that is returned.
pub nearest-IsSmallest :
    (rating : ℕ) (es : List Entry)
    → Rises 0 es
    → (gap_found (nearest rating es) ≡ smallest_gap rating none es)
      × IsEntry rating es (nearest rating es)
      × (closest_waiting_room rating es ≡ room_of (nearest rating es))
unfolding nearest closest_waiting_room
nearest-IsSmallest rating es s =
    let (before, lower) = around-IsOf rating none es es tt (λ e m. m) in
    (
      nearest-smallest_gap rating es s,
      consider-IsEntry rating es _ _ before (consider-IsEntry rating es _ none lower tt),
      refl,
    )
