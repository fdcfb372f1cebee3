-- ===== src/Rules/Walk.antt =====
-- What a slide is: a walk over clear squares that ends on a square the piece may take.
use kung_fu_chess.Prelude.{
  ℕ, zero, suc, ◌+◌, ◌-◌, ◌<◌, ◌≡◌, refl, ◌↔◌, ◌⊎◌, inl, inr, true, pos, negsuc, pos_part, neg_part,
  +ℤ_parts, ◌∈◌, arith,
}
use kung_fu_chess.Model.{Position, PieceColor}
use kung_fu_chess.Model.Board.{Board, in_bounds, Inside}
use kung_fu_chess.Rules.Geometry.{Offset, shift, slide, slide_fuel, may_step}
use kung_fu_chess.Rules.Pieces.{is_clear}

-- The square after n steps.
abbrev pub walk : Position → Offset → ℕ → Position
walk p d zero = p
walk p d (suc n) = walk (shift p d) d n

-- `p` is reached from `start` by steps of `d` over clear squares, and may be landed on: it is clear
-- or holds a piece of the other colour.
pub record Reached (b : Board) (color : PieceColor) (d : Offset) (start p : Position) : Type 0 where
  pub steps : ℕ
  pub lands : p ≡ walk start d steps
  pub clear : (k : ℕ) → k < steps → is_clear b (walk start d k) ≡ true
  pub free : may_step b color p ≡ true

-- The step is not on the spot.
abbrev pub IsDirection : Offset → Type 0
IsDirection (pos zero, pos zero) = ⊥
IsDirection (_, _) = Unit {0}

-- How many squares lie ahead, on the axis that the direction moves along.
abbrev room : Board → Offset → Position → ℕ
room b (pos (suc _), _) p = b.height - pos_part p.row
room b (negsuc _, _) p = pos_part p.row + 1
room b (pos zero, pos (suc _)) p = b.width - pos_part p.col
room b (pos zero, negsuc _) p = pos_part p.col + 1
room b (pos zero, pos zero) p = 0

room_bounds :
    (b : Board) (d : Offset) (p : Position)
    → IsDirection d
    → Inside b p
    → (0 < room b d p) × (room b d p < slide_fuel b)
unfolding in_bounds
room_bounds b (pos (suc x), dc) p h i = ground arith
room_bounds b (negsuc x, dc) p h i = ground arith
room_bounds b (pos zero, pos (suc x)) p h i = ground arith
room_bounds b (pos zero, negsuc x) p h i = ground arith
room_bounds b (pos zero, pos zero) p h i = absurd h

-- On the board the coordinates are numbers below the sides.
Inside-parts :
    (b : Board) (p : Position)
    → Inside b p
    → (neg_part p.row ≡ 0)
      × (neg_part p.col ≡ 0)
      × (pos_part p.row < b.height)
      × (pos_part p.col < b.width)
unfolding in_bounds
Inside-parts b p i = (ground arith, ground arith, ground arith, ground arith)

room-shift :
    (b : Board) (d : Offset) (p : Position)
    → IsDirection d
    → Inside b p
    → Inside b (shift p d)
    → room b d (shift p d) < room b d p
unfolding shift
room-shift b (pos (suc x), dc) p h i j = omega (
  arith,
  Inside-parts b p i,
  Inside-parts b (shift p (pos (suc x), dc)) j,
  +ℤ_parts p.row (pos (suc x)),
)
room-shift b (negsuc x, dc) p h i j = omega (
  arith,
  Inside-parts b p i,
  Inside-parts b (shift p (negsuc x, dc)) j,
  +ℤ_parts p.row (negsuc x),
)
room-shift b (pos zero, pos (suc x)) p h i j = omega (
  arith,
  Inside-parts b p i,
  Inside-parts b (shift p (pos zero, pos (suc x))) j,
  +ℤ_parts p.col (pos (suc x)),
)
room-shift b (pos zero, negsuc x) p h i j = omega (
  arith,
  Inside-parts b p i,
  Inside-parts b (shift p (pos zero, negsuc x)) j,
  +ℤ_parts p.col (negsuc x),
)
room-shift b (pos zero, pos zero) p h i j = absurd h

pub is_clear-Inside : (b : Board) (p : Position) → is_clear b p ≡ true → Inside b p
unfolding is_clear
is_clear-Inside b p e = ground arith

pub may_step-Inside :
    (b : Board) (color : PieceColor) (p : Position) → may_step b color p ≡ true → Inside b p
unfolding may_step
may_step-Inside b color p e = ground arith

-- The first square of a walk is on the board, and a walk is shorter than the room ahead.
module _ (b : Board) (color : PieceColor) (d : Offset) where
  first-Inside :
      (n : ℕ) (start : Position)
      → ((k : ℕ) → k < n → is_clear b (walk start d k) ≡ true)
      → Inside b (walk start d n)
      → Inside b start
  first-Inside zero start clear i = i
  first-Inside (suc n) start clear i = is_clear-Inside b start (clear 0 (omega arith))

  steps-lt-room :
      (n : ℕ) (start : Position)
      → IsDirection d
      → ((k : ℕ) → k < n → is_clear b (walk start d k) ≡ true)
      → Inside b (walk start d n)
      → n < room b d start
  steps-lt-room zero start h clear i = (room_bounds b d start h i).0
  steps-lt-room (suc n) start h clear i =
      let next = λ (k : ℕ) (lt : k < n). clear (suc k) (omega arith) in
      let here = is_clear-Inside b start (clear 0 (omega arith)) in
      omega (
        arith,
        steps-lt-room n (shift start d) h next i,
        room-shift b d start h here (first-Inside n (shift start d) next i),
      )

  -- One round of the loop: what it pushes.
  mem-slide :
      (fuel : ℕ) (start p : Position)
      → (p ∈ slide (suc fuel) b color d start) ↔ (
          (p ≡ start) × (may_step b color start ≡ true)
          ⊎ (is_clear b start ≡ true) × (p ∈ slide fuel b color d (shift start d)))
  unfolding slide may_step is_clear
  mem-slide fuel start p = (ground arith, ground arith)

  slide_sound :
      (fuel : ℕ) (start p : Position) → p ∈ slide fuel b color d start → Reached b color d start p
  unfolding slide
  slide_sound zero start p m = absurd m
  slide_sound (suc fuel) start p m = elim ((mem-slide fuel start p).0 m) [
    | inl (e, free) ↦ record {
      steps = 0;
      lands = e;
      clear = λ k lt. absurd (omega arith);
      free = rw e free;
    }
    | inr (clear, m') ↦
        let r = slide_sound fuel (shift start d) p m' in
        record {
          steps = suc r.steps;
          lands = r.lands;
          clear = elim [ zero ↦ λ lt. clear | suc k ↦ λ lt. r.clear k (omega arith) ];
          free = r.free;
        }
  ]

  slide-complete :
      (n fuel : ℕ) (start : Position)
      → n < fuel
      → ((k : ℕ) → k < n → is_clear b (walk start d k) ≡ true)
      → may_step b color (walk start d n) ≡ true
      → walk start d n ∈ slide fuel b color d start
  slide-complete n zero start lt clear free = absurd (omega arith)
  slide-complete zero (suc fuel) start lt clear free =
      (mem-slide fuel start start).1 (inl (refl, free))
  slide-complete (suc n) (suc fuel) start lt clear free =
      (mem-slide fuel start (walk (shift start d) d n)).1 (
        inr (
          clear 0 (omega arith),
          slide-complete n fuel (shift start d) (omega arith) (λ k l. clear (suc k) (omega arith))
              free,
        ))

  pub mem-slide_iff :
      (start p : Position)
      → IsDirection d
      → (p ∈ slide (slide_fuel b) b color d start) ↔ Reached b color d start p
  mem-slide_iff start p h = (
    slide_sound (slide_fuel b) start p,
    λ r.
        let free = rw r.lands at r.free in
        let lands = may_step-Inside b color (walk start d r.steps) free in
        let first = first-Inside r.steps start r.clear lands in
        let short : r.steps < slide_fuel b =
          omega
            (arith, steps-lt-room r.steps start h r.clear lands, room_bounds b d start h first) in
        rw r.lands (slide-complete r.steps (slide_fuel b) start short r.clear free),
  )
