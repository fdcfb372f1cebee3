-- ===== src/RealTime/Safety/Setup.antt =====
-- Coherent boards to start from: the constructor's, and what `add_piece` makes of one.
use kung_fu_chess.Prelude.{
  ℕ, zero, suc, ◌*◌, ◌<◌, ◌≡◌, refl, sym, ◌∙◌, Bool-cases, ◌⊎◌, Option, none, some, get_or,
  replicate, length-replicate, Result, ok, Returns, arith, inl, inr,
}
use kung_fu_chess.Model.{Position, Piece, position_eq, position_eq_iff}
use kung_fu_chess.Model.Board.{
  Board, in_bounds, cell_at, piece_at, add_piece, Inside, Writes, add_piece-Writes,
}
use kung_fu_chess.RealTime.Safety.Invariant.{IsCoherent}

-- A coherent board whose ids lie below `n`, as the parser's counter keeps them.
pub record IsSetUp (n : ℕ) (b : Board) : Type 0 where
  pub coherent : IsCoherent b
  pub below : (q : Position) (x : Piece) → piece_at b q ≡ some x → x.id < n

abbrev pub empty_board : ℕ → ℕ → Board
empty_board w h = record { width = w; height = h; cells = replicate (w * h) none }

get_or-replicate : {A : Type 0} (n i : ℕ) → get_or {A = Option A} (replicate n none) i none ≡ none
get_or-replicate zero i = refl
get_or-replicate (suc n) zero = refl
get_or-replicate (suc n) (suc i) = get_or-replicate n i

pub empty_board-none : (w h : ℕ) (q : Position) → piece_at (empty_board w h) q ≡ none
unfolding piece_at cell_at
empty_board-none w h q = elim (Bool-cases (in_bounds (empty_board w h) q)) [
  | inl e ↦ rw e (get_or-replicate (w * h) _)
  | inr e ↦ rw e
]

pub empty_board-IsSetUp : (w h n : ℕ) → IsSetUp n (empty_board w h)
empty_board-IsSetUp w h n = record {
  coherent = record {
    valid = length-replicate (w * h) none;
    placed = λ q x e. cc (e, empty_board-none w h q);
    unique = λ p q x y e f i. cc (e, empty_board-none w h p);
  };
  below = λ q x e. cc (e, empty_board-none w h q);
}

module _ (n : ℕ) (b c : Board) (x : Piece) (s : IsSetUp n b) (new : x.id ≡ n)
    (w : Writes b x.cell (some x) c) where
  placed_or_old :
      (q : Position) (y : Piece)
      → piece_at c q ≡ some y
      → ((q ≡ x.cell) × (y ≡ x)) ⊎ (piece_at b q ≡ some y)
  placed_or_old q y e = elim (Bool-cases (position_eq q x.cell)) [
    | inl on ↦
        let found : some y ≡ some x = sym e ∙ w.square q ∙ rw on in
        inl ((position_eq_iff q x.cell).0 on, cc)
    | inr off ↦ inr (sym (rw (w.square q, off)) ∙ e)
  ]

  pub placed-IsSetUp : IsSetUp (suc n) c
  placed-IsSetUp = record {
    coherent = record {
      valid = w.valid;
      placed = λ q y e. elim (placed_or_old q y e) [
        | inl (on, same) ↦ rw (same, on)
        | inr f ↦ s.coherent.placed q y f
      ];
      unique = λ p q y z e f i. elim (placed_or_old p y e) [
        | inl (on, same) ↦ elim (placed_or_old q z f) [
          | inl (on', same') ↦ on ∙ sym on'
          | inr g ↦ absurd (differ y z same (s.below q z g) i)
        ]
        | inr g ↦ elim (placed_or_old q z f) [
          | inl (on', same') ↦ absurd (differ z y same' (s.below p y g) (sym i))
          | inr g' ↦ s.coherent.unique p q y z g g' i
        ]
      ];
    };
    below = λ q y e. elim (placed_or_old q y e) [
      | inl (on, same) ↦ ground arith
      | inr g ↦ omega (arith, s.below q y g)
    ];
  }
    where
      differ : (y z : Piece) → y ≡ x → z.id < n → ¬ (y.id ≡ z.id)
      differ y z same lt i = ground arith

-- Adding a piece with the next id to a board of smaller ids keeps it coherent.
pub add_piece-IsSetUp :
    (n : ℕ) (b : Board) (x : Piece)
    → IsSetUp n b
    → x.id ≡ n
    → Inside b x.cell
    → piece_at b x.cell ≡ none
    → Returns (IsSetUp (suc n)) (add_piece b x)
add_piece-IsSetUp n b x s new inside vacant =
    let (c, r, w) = add_piece-Writes b x s.coherent.valid inside vacant in
    (c, r, placed-IsSetUp n b c x s new w)

-- The same of a board that `add_piece` is known to return.
pub add_piece-ok-IsSetUp :
    (n : ℕ) (b c : Board) (x : Piece)
    → IsSetUp n b
    → x.id ≡ n
    → Inside b x.cell
    → piece_at b x.cell ≡ none
    → add_piece b x ≡ ok c
    → IsSetUp (suc n) c
add_piece-ok-IsSetUp n b c x s new inside vacant e =
    let (d, r, t) = add_piece-IsSetUp n b x s new inside vacant in
    let same : d ≡ c = ok_inj d c (sym r ∙ e) in rw (← same) t
  where
    ok_inj : (x y : Board) → ◌≡◌ {A = Result Board} (ok x) (ok y) → x ≡ y
    ok_inj x y q = cc
