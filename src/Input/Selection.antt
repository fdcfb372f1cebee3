-- ===== src/Input/Selection.antt =====
-- What a click and a jump may ask of the game, and the selection between clicks.
use kung_fu_chess.Prelude.{
  ℕ, ◌≡◌, refl, sym, subst, ◌⊎◌, inl, inr, true, false, ◌==◌, Bool-cases, Option-cases,
  if◌then◌else◌, Option, none, some, ok, ◌>>=◌, Returns, ℤ, arith,
}
use kung_fu_chess.Model.{Position, Piece, color_eq}
use kung_fu_chess.Model.Board.{Board, piece_at}
use kung_fu_chess.Engine.{MoveResult}
use kung_fu_chess.Input.Mapper.{pixel_to_cell}
use kung_fu_chess.Input.Clicking.{
  MoveRequester, move_requested, jump_requested, ControllerResult, Controller, can_control,
  is_other, stale, selection_is_stale, clear_selection, pick_up, aim, strike, click_on, click,
  jump_on, jump_at, jump,
}

-- The square and the id of the selection are set together or not at all.
abbrev pub InStep : Option Position → Option ℕ → Type 0
InStep none none = Unit
InStep (some _) (some _) = Unit
InStep _ _ = ⊥

abbrev pub IsInStep : Controller → Type 0
IsInStep c = InStep c.selected_cell c.selected_piece_id

module _ {G : Type 0} (q : MoveRequester G) (c : Controller) (g : G) where
  abbrev b : Board
  b = q.board_of g

  -- The click asked for one move of the selected piece, and the selection is gone.
  abbrev pub Asks : Option Position → ControllerResult × Controller × G → Type 0
  Asks at (r, c', g') =
      (r.outcome ≡ move_requested)
      × (source : Position) × (cell : Position) × (own : Piece) × (res : MoveResult)
      × (c.selected_cell ≡ some source)
      × (at ≡ some cell)
      × (piece_at b source ≡ some own)
      × (c.selected_piece_id ≡ some own.id)
      × ((t : Piece) → piece_at b cell ≡ some t → color_eq t.color own.color ≡ false)
      × (q.ask_move g source cell ≡ ok (res, g'))
      × (r.move_result ≡ some res)
      × (c'.selected_cell ≡ none)

  abbrev pub Clicks : Option Position → ControllerResult × Controller × G → Type 0
  Clicks at (r, c', g') = IsInStep c' × (((r.move_result ≡ none) × (g' ≡ g)) ⊎ Asks at (r, c', g'))

  module _
      (asks : (s d : Position)
        → Returns {0, 0} (λ (r : MoveResult × G). Unit) (q.ask_move g s d)) where
    pick_up-Clicks :
        (at : Option Position) (d : Controller) (cell : Position) (o : Option Piece)
        → IsInStep d
        → Returns (Clicks at) (pick_up q cell o d g)
    unfolding pick_up
    pick_up-Clicks at d cell none k = (_, refl, (k, inl (refl, refl)))
    pick_up-Clicks at d cell (some piece) k = elim (Bool-cases (can_control piece.color d)) [
      | inl e ↦ rw e (_, refl, (tt, inl (refl, refl)))
      | inr e ↦ rw e (_, refl, (k, inl (refl, refl)))
    ]

    aim-Clicks :
        (source cell : Position) (own : Piece)
        → c.selected_cell ≡ some source
        → piece_at b source ≡ some own
        → c.selected_piece_id ≡ some own.id
        → ((t : Piece) → piece_at b cell ≡ some t → color_eq t.color own.color ≡ false)
        → Returns (Clicks (some cell)) (aim q source cell c g)
    unfolding aim clear_selection
    aim-Clicks source cell own e at i h =
        let ((res, g'), a, _) = asks source cell in
        (
          (
            record { outcome = move_requested; move_result = some res },
            record c { selected_cell = none; selected_piece_id = none },
            g',
          ),
          rw a,
          (tt, inr (refl, source, cell, own, res, e, refl, at, i, h, a, refl, refl)),
        )

    strike-Clicks :
        (source cell : Position) (own : Piece) (o : Option Piece)
        → c.selected_cell ≡ some source
        → piece_at b source ≡ some own
        → c.selected_piece_id ≡ some own.id
        → piece_at b cell ≡ o
        → Returns (Clicks (some cell)) (strike q source (some own) cell o c g)
    unfolding strike
    strike-Clicks source cell own none e at i f = aim-Clicks source cell own e at i (λ t k. cc)
    strike-Clicks source cell own (some target) e at i f =
        elim (Bool-cases (color_eq target.color own.color)) [
          | inl friend ↦ rw friend (_, refl, (tt, inl (refl, refl)))
          | inr foe ↦ rw foe (
              aim-Clicks source cell own e at i (λ t k.
                let same : target ≡ t = cc in
                subst (λ (z : Piece). color_eq z.color own.color ≡ false) same foe))
        ]

    unselected-Clicks :
        (at : Option Position) (d : Controller)
        → IsInStep d
        → Returns (Clicks at) (click_on q at none d g)
    unfolding click_on
    unselected-Clicks none d k = (_, refl, (k, inl (refl, refl)))
    unselected-Clicks (some cell) d k = pick_up-Clicks (some cell) d cell (piece_at b cell) k

    selected-Clicks :
        (at : Option Position) (source : Position) (own : Piece)
        → c.selected_cell ≡ some source
        → piece_at b source ≡ some own
        → c.selected_piece_id ≡ some own.id
        → Returns (Clicks at) (click_on q at (some source) c g)
    unfolding click_on clear_selection
    selected-Clicks none source own e at i = (_, refl, (tt, inl (refl, refl)))
    selected-Clicks (some cell) source own e at i =
        subst (λ o. Returns (Clicks (some cell)) (strike q source o cell (piece_at b cell) c g))
          (sym at) (strike-Clicks source cell own (piece_at b cell) e at i refl)

    click-from :
        (at : Option Position) (o : Option Position) (p : Option ℕ)
        → c.selected_cell ≡ o
        → c.selected_piece_id ≡ p
        → InStep o p
        → IsInStep c
        → Returns (Clicks at) (
            stale o p b >>= λ s.
            let fresh = if s then clear_selection c else c in
            click_on q at fresh.selected_cell fresh g)
    unfolding stale clear_selection
    click-from at none (some _) e i k n = absurd k
    click-from at (some _) none e i k n = absurd k
    click-from at none none e i k n =
        subst (λ o. Returns (Clicks at) (click_on q at o c g)) (sym e) (unselected-Clicks at c n)
    click-from at (some source) (some id) e i k n = elim (Option-cases (piece_at b source)) [
      | inl gone ↦
          let other : is_other (piece_at b source) id ≡ true = rw gone refl in
          rw other (unselected-Clicks at (clear_selection c) tt)
      | inr (own, here) ↦ elim (Bool-cases (own.id == id)) [
        | inl same ↦
            let held : is_other (piece_at b source) id ≡ false = rw (here, same) refl in
            let j : c.selected_piece_id ≡ some own.id = ground arith in
            rw held (
              subst (λ o. Returns (Clicks at) (click_on q at o c g)) (sym e)
                (selected-Clicks at source own e here j))
        | inr moved ↦
            let other : is_other (piece_at b source) id ≡ true = rw (here, moved) refl in
            rw other (unselected-Clicks at (clear_selection c) tt)
      ]
    ]

    -- With a selection whose square and id are set together, and a game that answers every request,
    -- a click returns, reads no empty optional, and keeps them together. Either it asks for nothing
    -- and the game is as it was, or it asks for one move: from the selected square, where the piece
    -- that was selected still stands, to the square of the pixel, which no piece of its colour holds;
    -- the answer is passed on and nothing is selected any more.
    click-Clicks :
        (x y : ℤ)
        → IsInStep c
        → Returns (Clicks (pixel_to_cell c.board_mapper x y)) (click q x y c g)
    unfolding click selection_is_stale
    click-Clicks x y k =
        click-from (pixel_to_cell c.board_mapper x y) c.selected_cell c.selected_piece_id refl refl
          k k

  abbrev pub Jumps : Option Position → ControllerResult × G → Type 0
  Jumps at (r, g') =
      ((r.move_result ≡ none) × (g' ≡ g))
      ⊎ ((r.outcome ≡ jump_requested)
          × (cell : Position) × (piece : Piece) × (res : MoveResult) × (at ≡ some cell)
          × (piece_at b cell ≡ some piece)
          × (can_control piece.color c ≡ true)
          × (q.ask_jump g cell ≡ ok (res, g'))
          × (r.move_result ≡ some res))

  module _
      (asks : (cell : Position)
        → Returns {0, 0} (λ (r : MoveResult × G). Unit) (q.ask_jump g cell)) where
    jump_on-Jumps :
        (cell : Position) (o : Option Piece)
        → piece_at b cell ≡ o
        → Returns (Jumps (some cell)) (jump_on q cell o c g)
    unfolding jump_on
    jump_on-Jumps cell none at = (_, refl, inl (refl, refl))
    jump_on-Jumps cell (some piece) at = elim (Bool-cases (can_control piece.color c)) [
      | inl own ↦
          let ((res, g'), a, _) = asks cell in
          (
            (record { outcome = jump_requested; move_result = some res }, g'),
            rw (own, a),
            inr (refl, cell, piece, res, refl, at, own, a, refl),
          )
      | inr other ↦ rw other (_, refl, inl (refl, refl))
    ]

    -- In a game that answers every request a jump returns. Either it asks for nothing and the game is
    -- as it was, or it asks for one jump: of a piece that the controller may control, on the square of
    -- the pixel; the answer is passed on.
    jump-Jumps : (x y : ℤ) → Returns (Jumps (pixel_to_cell c.board_mapper x y)) (jump q x y c g)
    unfolding jump
    jump-Jumps x y = at_square (pixel_to_cell c.board_mapper x y)
      where
        at_square : (at : Option Position) → Returns (Jumps at) (jump_at q at c g)
        at_square none = (_, refl, inl (refl, refl))
        at_square (some cell) = jump_on-Jumps cell (piece_at b cell) refl

-- In a game that answers every request, a selection whose square and id are set together: a click and a jump
-- return and read no empty optional, and the click keeps the two together. A click either asks for
-- nothing and leaves the game as it was, or asks for one move: from the selected square, where the piece
-- that was selected still stands, to the square of the pixel, which no piece of its colour holds; then the
-- answer is passed on and nothing is selected any more. A jump either asks for nothing and leaves the game as
-- it was, or asks for one jump, of a piece that the controller may control, on the square of the pixel,
-- and passes the answer on.
pub selection_lem :
    {G : Type 0} (q : MoveRequester G) (c : Controller) (g : G) (x y : ℤ)
    → ((s d : Position) → Returns {0, 0} (λ (r : MoveResult × G). Unit) (q.ask_move g s d))
    → ((cell : Position) → Returns {0, 0} (λ (r : MoveResult × G). Unit) (q.ask_jump g cell))
    → IsInStep c
    → Returns (Clicks q c g (pixel_to_cell c.board_mapper x y)) (click q x y c g)
      × Returns (Jumps q c g (pixel_to_cell c.board_mapper x y)) (jump q x y c g)
selection_lem q c g x y moves jumps k = (click-Clicks q c g moves x y k, jump-Jumps q c g jumps x y)
