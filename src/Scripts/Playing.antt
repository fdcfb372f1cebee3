-- ===== src/Scripts/Playing.antt =====
-- Clicks and jumps in a game that is played at one board (logic/src/kfc/texttests/game.cpp).
use kung_fu_chess.Prelude.{ℤ, ◌≡◌, refl, sym, subst, ◌⊎◌, inl, inr, none, ok, Returns, >>=-Returns}
use kung_fu_chess.Model.{Position}
use kung_fu_chess.Engine.{GameCore, MoveResult}
use kung_fu_chess.Engine
use kung_fu_chess.Engine.Endings.{request_move-ending, request_jump-ending}
use kung_fu_chess.Engine.Safety.{IsSound, request_move-IsSound, request_jump-IsSound}
use kung_fu_chess.Input.{Controller, ControllerResult, engine_requester, pixel_to_cell}
use kung_fu_chess.Input
use kung_fu_chess.Input.Selection.{IsInStep, Jumps, Asks, selection_lem}
use kung_fu_chess.Scripts.Game.{Game, click_game, jump_game}

-- The board is sound and the selection's square and id are set together.
abbrev pub IsPlayable : Game → Type 0
IsPlayable g = IsSound g.core × IsInStep g.controller

-- A game after a click or a jump: playable, and not a step further in what it has published.
abbrev pub Plays : {A : Type 0} → Game → A × Game → Type 0
Plays g (_, k) =
    IsPlayable k
    × (k.core.is_game_over ≡ g.core.is_game_over)
    × (k.started ≡ g.started)
    × (k.ended ≡ g.ended)
    × (k.game_over ≡ g.game_over)

-- A board that is sound, and an end that is where it was.
abbrev Stays : GameCore → GameCore → Type 0
Stays g k = IsSound k × (k.is_game_over ≡ g.is_game_over)

module _ (g : Game) (s : IsSound g.core) where
  answers_moves :
      (a b : Position)
      → Returns {0, 0}
          (λ (r : MoveResult × GameCore). Unit)
          (Engine.request_move g.factory g.core a b)
  answers_moves a b = let (r, e, _) = request_move-IsSound g.factory g.core s a b in (r, e, tt)

  answers_jumps :
      (cell : Position)
      → Returns {0, 0}
          (λ (r : MoveResult × GameCore). Unit)
          (Engine.request_jump g.factory g.core cell)
  answers_jumps cell = let (r, e, _) = request_jump-IsSound g.factory g.core s cell in (r, e, tt)

  moved-Stays :
      (a b : Position) (r : MoveResult) (core : GameCore)
      → Engine.request_move g.factory g.core a b ≡ ok (r, core)
      → Stays g.core core
  moved-Stays a b r core e =
      let (v, f, h) = request_move-IsSound g.factory g.core s a b in
      let same : v.1 ≡ core = cc in
      (subst (λ c. IsSound c) same h, request_move-ending g.factory g.core core a b r e)

  jumped-Stays :
      (cell : Position) (r : MoveResult) (core : GameCore)
      → Engine.request_jump g.factory g.core cell ≡ ok (r, core)
      → Stays g.core core
  jumped-Stays cell r core e =
      let (v, f, h) = request_jump-IsSound g.factory g.core s cell in
      let same : v.1 ≡ core = cc in
      (subst (λ c. IsSound c) same h, request_jump-ending g.factory g.core core cell r e)

  pub click_game-Plays :
      (x y : ℤ)
      → IsInStep g.controller
      → Returns (Plays {A = ControllerResult} g) (click_game x y g)
  unfolding click_game
  click_game-Plays x y k =
      let clicked =
        selection_lem (engine_requester g.factory) g.controller g.core x y answers_moves
          answers_jumps k in
      >>=-Returns (Input.click (engine_requester g.factory) x y g.controller g.core) _ clicked.0
        (λ v h. let (t, flag) = stays v h.1 in (_, refl, ((t, h.0), flag, refl, refl, refl)))
    where
      stays :
          (v : ControllerResult × Controller × GameCore)
          → ((v.0.move_result ≡ none) × (v.2 ≡ g.core))
            ⊎ Asks
                (engine_requester g.factory)
                g.controller
                g.core
                (pixel_to_cell g.controller.board_mapper x y)
                v
          → Stays g.core v.2
      stays v (inl (_, e)) = subst (Stays g.core) (sym e) (s, refl)
      stays v (inr (_, source, cell, own, res, _, _, _, _, _, asked, _, _)) =
          moved-Stays source cell res v.2 asked

  pub jump_game-Plays :
      (x y : ℤ) → IsInStep g.controller → Returns (Plays {A = ControllerResult} g) (jump_game x y g)
  unfolding jump_game
  jump_game-Plays x y k =
      let jumped =
        selection_lem (engine_requester g.factory) g.controller g.core x y answers_moves
          answers_jumps k in
      >>=-Returns (Input.jump (engine_requester g.factory) x y g.controller g.core) _ jumped.1
        (λ v h. let (t, flag) = stays v h in (_, refl, ((t, k), flag, refl, refl, refl)))
    where
      stays :
          (v : ControllerResult × GameCore)
          → Jumps
              (engine_requester g.factory)
              g.controller
              g.core
              (pixel_to_cell g.controller.board_mapper x y)
              v
          → Stays g.core v.1
      stays v (inl (_, e)) = subst (Stays g.core) (sym e) (s, refl)
      stays v (inr (_, cell, piece, res, _, _, _, asked, _)) = jumped-Stays cell res v.1 asked
