-- ===== src/Protocol/Scanning.antt =====
-- The scan of a text that is redacted gets on: every turn leaves a shorter text.
use kung_fu_chess.Prelude.{
  ℕ, zero, suc, ◌≤◌, ◌<◌, ◌≡◌, refl, ap, ◌==◌, Bool-cases, inl, inr, Option, none, some, [], ◌∷◌,
  ◌++◌, length, arith,
}
use kung_fu_chess.Io.{Text}
use kung_fu_chess.Protocol.Redaction.{
  key, behind_prefix, one_later, or_later, find_key, is_whitespace, skip_whitespace, skip_string,
  skip_value, Scanned, put_before, scan_value, scan_colon, scan_key, or_end, next_key, redact,
}

-- What is left is no longer than that.
abbrev AtMost : ℕ → Option Text → Type 0
AtMost n none = Unit
AtMost n (some s) = length s ≤ n

weaken-AtMost : (m n : ℕ) (o : Option Text) → m ≤ n → AtMost m o → AtMost n o
weaken-AtMost m n none x h = tt
weaken-AtMost m n (some s) x h = omega (arith, x, h)

behind_prefix-AtMost : (k s : Text) → AtMost (length s) (behind_prefix k s)
unfolding behind_prefix
behind_prefix-AtMost [] s = omega arith
behind_prefix-AtMost (k ∷ ks) [] = tt
behind_prefix-AtMost (k ∷ ks) (c ∷ cs) = elim (Bool-cases (c == k)) [
  | inl e ↦ rw e (
      weaken-AtMost (length cs) (suc (length cs)) (behind_prefix ks cs) (omega arith)
        (behind_prefix-AtMost ks cs))
  | inr e ↦ rw e tt
]

skip_whitespace_shortens : (s : Text) → length ((skip_whitespace s).1) ≤ length s
unfolding skip_whitespace
skip_whitespace_shortens [] = omega arith
skip_whitespace_shortens (c ∷ cs) = elim (Bool-cases (is_whitespace c)) [
  | inl e ↦ rw e (omega (arith, skip_whitespace_shortens cs))
  | inr e ↦ rw e (omega arith)
]

skip_string-AtMost : (s : Text) → AtMost (length s) (skip_string s)
unfolding skip_string
skip_string-AtMost [] = tt
skip_string-AtMost (c ∷ []) = elim (Bool-cases (c == 34)) [
  | inl e ↦ rw e (omega arith)
  | inr e ↦ rw e tt
]
skip_string-AtMost (c ∷ d ∷ cs) =
    let one =
      weaken-AtMost _ (length (c ∷ d ∷ cs)) (skip_string (d ∷ cs)) (omega arith)
        (skip_string-AtMost (d ∷ cs)) in
    let two =
      weaken-AtMost _ (length (c ∷ d ∷ cs)) (skip_string cs) (omega arith)
        (skip_string-AtMost cs) in
    elim (Bool-cases (c == 34)) [
      | inl e ↦ rw e (omega arith)
      | inr e ↦ elim (Bool-cases (c == 92)) [ inl g ↦ rw (e, g) two | inr g ↦ rw (e, g) one ]
    ]

skip_value_shortens : (s : Text) → length (skip_value s) ≤ length s
unfolding skip_value
skip_value_shortens [] = omega arith
skip_value_shortens (c ∷ cs) = ground (arith, skip_value_shortens cs)

put_before-AtMost : (n : ℕ) (s : Text) (v : Scanned) → AtMost n v.1 → AtMost n (put_before s v).1
put_before-AtMost n s (copied, rest) h = h

scan_value-AtMost : (s : Text) → AtMost (length s) (scan_value s).1
unfolding scan_value
scan_value-AtMost [] = omega arith
scan_value-AtMost (c ∷ cs) = elim (Bool-cases (c == 34)) [
  | inl e ↦ rw e (weaken-AtMost _ _ (skip_string cs) (omega arith) (skip_string-AtMost cs))
  | inr e ↦ rw e (skip_value_shortens (c ∷ cs))
]

scan_colon-AtMost : (s : Text) → AtMost (length s) (scan_colon s).1
unfolding scan_colon
scan_colon-AtMost [] = omega arith
scan_colon-AtMost (c ∷ cs) = elim (Bool-cases (c == 58)) [
  | inl e ↦ rw e (
      weaken-AtMost (length ((skip_whitespace cs).1)) _ ((scan_value ((skip_whitespace cs).1)).1)
        (omega (arith, skip_whitespace_shortens cs)) (scan_value-AtMost ((skip_whitespace cs).1)))
  | inr e ↦ rw e (omega arith)
]

scan_key-AtMost : (s : Text) → AtMost (length s) (scan_key s).1
unfolding scan_key
scan_key-AtMost s =
    weaken-AtMost (length ((skip_whitespace s).1)) _ ((scan_colon ((skip_whitespace s).1)).1)
      (skip_whitespace_shortens s) (scan_colon-AtMost ((skip_whitespace s).1))

-- What stands behind the first key is shorter than the text.
abbrev Shorter : ℕ → Option (Text × Text) → Type 0
Shorter n none = Unit
Shorter n (some (before, after)) = length after < n

one_later-Shorter :
    (n c : ℕ) (later : Option (Text × Text)) → Shorter n later → Shorter (suc n) (one_later c later)
one_later-Shorter n c none h = tt
one_later-Shorter n c (some (before, after)) h = omega (arith, h)

or_later-Shorter :
    (n c : ℕ) (now : Option Text) (later : Option (Text × Text))
    → AtMost n now
    → Shorter n later
    → Shorter (suc n) (or_later c now later)
or_later-Shorter n c none later h k = one_later-Shorter n c later k
or_later-Shorter n c (some after) later h k = omega (arith, h)

prefix_here :
    (k : ℕ) (ks : Text) (c : ℕ) (cs : Text) → AtMost (length cs) (behind_prefix (k ∷ ks) (c ∷ cs))
unfolding behind_prefix
prefix_here k ks c cs = elim (Bool-cases (c == k)) [
  | inl e ↦ rw e (behind_prefix-AtMost ks cs)
  | inr e ↦ rw e tt
]

find_key-Shorter : (s : Text) → Shorter (length s) (find_key s)
unfolding find_key
find_key-Shorter [] = tt
find_key-Shorter (c ∷ cs) =
    or_later-Shorter (length cs) c (behind_prefix key (c ∷ cs)) (find_key cs)
      (prefix_here 34 (112 ∷ 97 ∷ 115 ∷ 115 ∷ 119 ∷ 111 ∷ 114 ∷ 100 ∷ 34 ∷ []) c cs)
      (find_key-Shorter cs)

or_end-same :
    (n : ℕ) (v : Scanned) (f g : Text → Text)
    → AtMost n v.1
    → ((s : Text) → length s ≤ n → f s ≡ g s)
    → or_end v f ≡ or_end v g
or_end-same n (copied, none) f g h k = refl
or_end-same n (copied, some rest) f g h k = ap (λ s. copied ++ s) (k rest h)

next_key-same :
    (n : ℕ) (text : Text) (found : Option (Text × Text)) (f g : Text → Text)
    → Shorter n found
    → ((s : Text) → length s < n → f s ≡ g s)
    → next_key text found f ≡ next_key text found g
next_key-same n text none f g h k = refl
next_key-same n text (some (before, after)) f g h k =
    ap (λ s. before ++ (key ++ s))
      (or_end-same (length after) (scan_key after) f g (scan_key-AtMost after)
        (λ s x. k s (omega (arith, x, h))))

-- Any two amounts of fuel that exceed the text's length do the same.
pub redact_enough :
    (m n : ℕ) (text : Text) → length text < m → length text < n → redact m text ≡ redact n text
unfolding redact
redact_enough zero n text x y = absurd (omega (arith, x))
redact_enough (suc m) zero text x y = absurd (omega (arith, y))
redact_enough (suc m) (suc n) text x y =
    next_key-same (length text) text (find_key text) _ _ (find_key-Shorter text)
      (λ s z. redact_enough m n s (omega (arith, x, z)) (omega (arith, y, z)))
