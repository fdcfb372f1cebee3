-- ===== src/Server/MatchScheduler/Counting.antt =====
-- How often a match stands on a worker's list, and what a change of one worker does.
use kung_fu_chess.Prelude.{
  ℕ, zero, suc, ◌+◌, ◌-◌, ◌≤◌, ◌<◌, ◌≡◌, refl, sym, ◌∙◌, inl, inr, true, false, ◌==◌, if◌then◌else◌,
  Bool-cases, some, Option-cases, List, [], ◌∷◌, ◌++◌, length, get_elem?, get_elem?-set_self,
  get_elem?-set_ne, length-set, arith,
}
use kung_fu_chess.Server.MatchScheduler.Defs.{Worker, erase_first, holds, change_worker}

-- How often a match is on a worker's list.
abbrev pub times : ℕ → List ℕ → ℕ
times key [] = 0
times key (x ∷ xs) = if x == key then 1 + times key xs else times key xs

pub times-append : (key : ℕ) (xs ys : List ℕ) → times key (xs ++ ys) ≡ times key xs + times key ys
times-append key [] ys = omega arith
times-append key (x ∷ xs) ys = ground (arith, times-append key xs ys)

pub times-erase_first :
    (k key : ℕ) (xs : List ℕ)
    → times k (erase_first key xs) ≡ (if k == key then times k xs - 1 else times k xs)
unfolding erase_first
times-erase_first k key [] = ground arith
times-erase_first k key (x ∷ xs) = ground (arith, times-erase_first k key xs)

pub holds-times : (key : ℕ) (xs : List ℕ) → holds key xs ≡ true → 1 ≤ times key xs
unfolding holds
holds-times key [] h = cc
holds-times key (x ∷ xs) h = ground (arith, holds-times key xs)

pub not_holds-times : (key : ℕ) (xs : List ℕ) → holds key xs ≡ false → times key xs ≡ 0
unfolding holds
not_holds-times key [] h = refl
not_holds-times key (x ∷ xs) h = ground (arith, not_holds-times key xs)

pub length-erase_first :
    (key : ℕ) (xs : List ℕ) → 1 ≤ times key xs → length (erase_first key xs) + 1 ≡ length xs
unfolding erase_first
length-erase_first key [] h = absurd (omega arith)
length-erase_first key (x ∷ xs) h = ground (arith, length-erase_first key xs)

pub get_elem?-lt {ℓ} :
    {A : Type ℓ} (xs : List A) (i : ℕ) (a : A) → get_elem? xs i ≡ some a → i < length xs
get_elem?-lt [] i a h = cc
get_elem?-lt (x ∷ xs) zero a h = omega arith
get_elem?-lt (x ∷ xs) (suc i) a h = omega (arith, get_elem?-lt xs i a h)

pub length-change_worker :
    (place : ℕ) (f : Worker → Worker) (ws : List Worker)
    → length (change_worker place f ws) ≡ length ws
unfolding change_worker
length-change_worker place f ws = elim (Option-cases (get_elem? ws place)) [
  | inl e ↦ rw (e, change_worker) refl
  | inr (w, e) ↦ rw (e, change_worker) (length-set ws place (f w))
]

-- The worker at a place after a change: the changed one there, and what it was elsewhere.
pub changed :
    (place i : ℕ) (f : Worker → Worker) (ws : List Worker) (w : Worker)
    → get_elem? (change_worker place f ws) i ≡ some w
    → (v : Worker) × (get_elem? ws i ≡ some v) × (w ≡ (if i == place then f v else v))
unfolding change_worker
changed place i f ws w h = elim (Option-cases (get_elem? ws place)) [
  | inl e ↦ (w, ground arith, ground arith)
  | inr (u, e) ↦ elim (Bool-cases (i == place)) [
    | inl same ↦ (
      u,
      ground arith,
      ground (arith, get_elem?-set_self ws place (f u), get_elem?-lt ws place u e),
    )
    | inr other ↦ (
      w,
      sym (get_elem?-set_ne ws {i = place} {j = i} (f u) (λ q. ground arith))
          ∙ rw (e, change_worker) at h,
      ground arith,
    )
  ]
]
