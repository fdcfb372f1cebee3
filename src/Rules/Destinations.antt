-- ===== src/Rules/Destinations.antt =====
-- The destinations of sliding, stepping and pawn moves, each against a description of the move.
use kung_fu_chess.Prelude.{
  ◌≡◌, refl, ◌↔◌, inl, inr, true, Bool-cases, List, [], ◌∷◌, ◌∈◌, ∈-append, ∈-append_left,
  ∈-append_right, All, arith,
}
use kung_fu_chess.Model.{Position, Piece}
use kung_fu_chess.Model.Board.{Board}
use kung_fu_chess.Rules.Geometry.{
  Offset, shift, slide, slide_fuel, sliding_destinations, stepping_destinations, may_step,
}
use kung_fu_chess.Rules.Walk.{Reached, IsDirection, mem-slide_iff}

-- `p` is reached by a slide along one of the directions.
abbrev pub SlidesTo : Board → Piece → List Offset → Position → Type 0
SlidesTo b piece ds p = (d : Offset) × (d ∈ ds) × Reached b piece.color d (shift piece.cell d) p

-- `p` lies at one of the offsets and may be landed on.
abbrev pub StepsTo : Board → Piece → List Offset → Position → Type 0
StepsTo b piece os p =
    (o : Offset) × (o ∈ os) × (p ≡ shift piece.cell o) × (may_step b piece.color p ≡ true)

module _ (b : Board) (piece : Piece) (p : Position) where
  slides_sound :
      (ds : List Offset)
      → All IsDirection ds
      → p ∈ sliding_destinations b piece ds
      → SlidesTo b piece ds p
  unfolding sliding_destinations
  slides_sound [] h m = absurd m
  slides_sound (d ∷ ds) h m =
      let start = shift piece.cell d in
      elim (∈-append p (slide (slide_fuel b) b piece.color d start)
        (sliding_destinations b piece ds) m) [
          | inl l ↦ (d, inl refl, (mem-slide_iff b piece.color d start p h.0).0 l)
          | inr r ↦ let (e, at, reached) = slides_sound ds h.1 r in (e, inr at, reached)
        ]

  slides-complete :
      (ds : List Offset)
      → All IsDirection ds
      → (d : Offset) → d ∈ ds
      → Reached b piece.color d (shift piece.cell d) p
      → p ∈ sliding_destinations b piece ds
  unfolding sliding_destinations
  slides-complete [] h d m r = absurd m
  slides-complete (e ∷ ds) h d (inl same) r =
      ∈-append_left p _ (sliding_destinations b piece ds)
        ((mem-slide_iff b piece.color e (shift piece.cell e) p h.0).1 (rw same at r))
  slides-complete (e ∷ ds) h d (inr m) r =
      ∈-append_right p (slide (slide_fuel b) b piece.color e (shift piece.cell e)) _
        (slides-complete ds h.1 d m r)

  -- A slide's destinations are exactly the squares that a walk along a direction reaches, with
  -- nothing in between; the fuel of the walk never runs out first.
  pub mem-sliding_destinations :
      (ds : List Offset)
      → All IsDirection ds
      → (p ∈ sliding_destinations b piece ds) ↔ SlidesTo b piece ds p
  mem-sliding_destinations ds h = (slides_sound ds h, λ s. slides-complete ds h s.0 s.1 s.2)

  steps_sound : (os : List Offset) → p ∈ stepping_destinations b piece os → StepsTo b piece os p
  unfolding stepping_destinations
  steps_sound [] m = absurd m
  steps_sound (o ∷ os) m = elim (Bool-cases (may_step b piece.color (shift piece.cell o))) [
    | inl free ↦ elim (rw (free, stepping_destinations) at m) [
      | inl e ↦ (o, inl refl, e, rw e free)
      | inr m' ↦ let s = steps_sound os m' in (s.0, inr s.1, s.2, s.3)
    ]
    | inr e ↦
        let s = steps_sound os (rw (e, stepping_destinations) at m) in (s.0, inr s.1, s.2, s.3)
  ]

  steps-complete :
      (os : List Offset) (o : Offset)
      → o ∈ os
      → p ≡ shift piece.cell o
      → may_step b piece.color p ≡ true
      → p ∈ stepping_destinations b piece os
  unfolding stepping_destinations
  steps-complete [] o m e free = absurd m
  steps-complete (q ∷ os) o m e free = ground (arith, steps-complete os o)

  pub mem-stepping_destinations :
      (os : List Offset) → (p ∈ stepping_destinations b piece os) ↔ StepsTo b piece os p
  mem-stepping_destinations os = (steps_sound os, λ s. steps-complete os s.0 s.1 s.2 s.3)
