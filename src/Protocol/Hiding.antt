-- ===== src/Protocol/Hiding.antt =====
-- A password does not reach the log.
use kung_fu_chess.Prelude.{
  ℕ, suc, ◌≤◌, ◌<◌, ◌≡◌, refl, ap, ◌∙◌, Bool, true, false, not, ◌&&◌, ◌==◌, Bool-cases, inl, inr,
  Option, none, some, [], ◌∷◌, ◌++◌, length, length-append, arith, if◌then◌else◌, All,
}
use kung_fu_chess.Io.{Text}
use kung_fu_chess.Protocol.Redaction.{
  key, behind_prefix, or_later, find_key, is_whitespace, skip_whitespace, skip_string, stars,
  scan_value, scan_colon, scan_key, next_key, redact, redact_for_log,
}
use kung_fu_chess.Protocol.Scanning.{redact_enough}

-- What stands between the quotes of a JSON string: no quote, and no backslash without what it escapes.
unfoldable pub is_quoted : Text → Bool
is_quoted [] = true
is_quoted (c ∷ []) = not (c == 34) && not (c == 92)
is_quoted (c ∷ d ∷ cs) =
    let one = is_quoted (d ∷ cs) in
    let two = is_quoted cs in if c == 34 then false else if c == 92 then two else one

abbrev pub IsSpace : Text → Type 0
IsSpace s = All (λ c. is_whitespace c ≡ true) s

-- The end of the text is its first key.
abbrev pub EndsInFirst : Text → Type 0
EndsInFirst before = find_key (before ++ key) ≡ some (before, [])

skip_whitespace_space :
    (s rest : Text) (c : ℕ)
    → IsSpace s
    → is_whitespace c ≡ false
    → skip_whitespace (s ++ c ∷ rest) ≡ (s, c ∷ rest)
unfolding skip_whitespace
skip_whitespace_space [] rest c h e = rw e refl
skip_whitespace_space (x ∷ s) rest c h e = rw (h.0, skip_whitespace_space s rest c h.1 e) refl

skip_string_quote : (rest : Text) → skip_string (34 ∷ rest) ≡ some (34 ∷ rest)
unfolding skip_string
skip_string_quote [] = refl
skip_string_quote (r ∷ rest) = refl

skip_string_quoted :
    (pw rest : Text) → is_quoted pw ≡ true → skip_string (pw ++ 34 ∷ rest) ≡ some (34 ∷ rest)
unfolding skip_string is_quoted
skip_string_quoted [] rest e = skip_string_quote rest
skip_string_quoted (c ∷ []) rest e = elim (Bool-cases (c == 34)) [
  | inl a ↦ absurd (ground (arith, e, a))
  | inr a ↦ elim (Bool-cases (c == 92)) [
    | inl b ↦ absurd (ground (arith, e, b))
    | inr b ↦ rw (a, b) (skip_string_quote rest)
  ]
]
skip_string_quoted (c ∷ d ∷ cs) rest e = elim (Bool-cases (c == 34)) [
  | inl a ↦ let never : false ≡ true = rw a at e in absurd (cc)
  | inr a ↦ elim (Bool-cases (c == 92)) [
    | inl b ↦ rw (a, b) (skip_string_quoted cs rest (rw (a, b) at e))
    | inr b ↦ rw (a, b) (skip_string_quoted (d ∷ cs) rest (rw (a, b) at e))
  ]
]

behind_prefix_longer :
    (k s rest : Text)
    → length k ≤ length s
    → behind_prefix k s ≡ none
    → behind_prefix k (s ++ rest) ≡ none
unfolding behind_prefix
behind_prefix_longer [] s rest x e = let never : some s ≡ none = e in absurd (cc)
behind_prefix_longer (k ∷ ks) [] rest x e = absurd (omega (arith, x))
behind_prefix_longer (k ∷ ks) (c ∷ cs) rest x e = elim (Bool-cases (c == k)) [
  | inl a ↦ rw a (behind_prefix_longer ks cs rest (omega (arith, x)) (rw a at e))
  | inr a ↦ rw a refl
]

later_only :
    (c : ℕ) (now : Option Text) (later : Option (Text × Text)) (before after : Text)
    → or_later c now later ≡ some (c ∷ before, after)
    → (now ≡ none) × (later ≡ some (before, after))
later_only c none none before after e = absurd (cc)
later_only c none (some (b, a)) before after e = (refl, cc)
later_only c (some s) later before after e = absurd (cc)

find_key_first :
    (before rest : Text)
    → EndsInFirst before
    → find_key ((before ++ key) ++ rest) ≡ some (before, rest)
unfolding find_key behind_prefix
find_key_first [] rest e = refl
find_key_first (c ∷ before) rest e =
    let (now, later) =
      later_only c (behind_prefix key (c ∷ (before ++ key))) (find_key (before ++ key)) before []
        e in
    let long : length key ≤ length (c ∷ (before ++ key)) =
      rw (length-append before key) (omega arith) in
    rw
      (
        behind_prefix_longer key (c ∷ (before ++ key)) rest long now,
        find_key_first before rest later,
      )
      refl

-- What the log has there: three stars for the string, its closing quote not included.
abbrev pub starred : Text → Text → Text
starred space space' = space ++ 58 ∷ (space' ++ 34 ∷ stars)

module _ (space space' pw after : Text) where
  -- What stands behind the key: white space, a colon, white space, and a string.
  abbrev pub value_text : Text
  value_text = space ++ 58 ∷ (space' ++ 34 ∷ (pw ++ 34 ∷ after))

  scan_key_string :
      IsSpace space
      → IsSpace space'
      → is_quoted pw ≡ true
      → scan_key value_text ≡ (starred space space', some (34 ∷ after))
  unfolding scan_key scan_colon scan_value
  scan_key_string s s' q =
      rw
        (
          skip_whitespace_space space (space' ++ 34 ∷ (pw ++ 34 ∷ after)) 58 s refl,
          skip_whitespace_space space' (pw ++ 34 ∷ after) 34 s' refl,
          skip_string_quoted pw after q,
        )
        refl

  shorter : (before : Text) → length (34 ∷ after) < length ((before ++ key) ++ value_text)
  shorter before = omega (
    arith,
    length-append (before ++ key) value_text,
    length-append space (58 ∷ (space' ++ 34 ∷ (pw ++ 34 ∷ after))),
    length-append space' (34 ∷ (pw ++ 34 ∷ after)),
    length-append pw (34 ∷ after),
  )

redact_turn :
    (text : Text)
    → redact_for_log text ≡ next_key text (find_key text) (λ rest. redact (length text) rest)
unfolding redact_for_log redact
redact_turn text = refl

-- A text in which the first key "password" has a JSON string for its value: whatever that string is, the text
-- for the log has three stars in its place, and what stands behind the string is redacted in its turn.
pub redact_for_log-Hides :
    (before space space' pw after : Text)
    → EndsInFirst before
    → IsSpace space
    → IsSpace space'
    → is_quoted pw ≡ true
    → redact_for_log ((before ++ key) ++ value_text space space' pw after)
      ≡ before ++ (key ++ (starred space space' ++ redact_for_log (34 ∷ after)))
unfolding redact_for_log
redact_for_log-Hides before space space' pw after b s s' q =
    redact_turn ((before ++ key) ++ value_text space space' pw after)
    ∙ rw
        (
          find_key_first before (value_text space space' pw after) b,
          scan_key_string space space' pw after s s' q,
        )
        (ap (λ t. before ++ (key ++ (starred space space' ++ t)))
          (redact_enough _ (suc (length (34 ∷ after))) (34 ∷ after)
            (shorter space space' pw after before) (omega arith)))
