-- ===== src/Protocol/Redaction.antt =====
-- redact_for_log of protocol/src/kfc/protocol/json.cpp. The index `at` is what remains of the text.
use kung_fu_chess.Prelude.{
  ℕ, zero, suc, Bool, ◌||◌, ◌==◌, if◌then◌else◌, Option, none, some, [], ◌∷◌, ◌++◌, length,
}
use kung_fu_chess.Io.{Text}

-- "password", with its quotes.
abbrev pub key : Text
key = 34 ∷ 112 ∷ 97 ∷ 115 ∷ 115 ∷ 119 ∷ 111 ∷ 114 ∷ 100 ∷ 34 ∷ []

-- What stands behind a prefix.
unfoldable pub behind_prefix : Text → Text → Option Text
behind_prefix [] s = some s
behind_prefix (k ∷ ks) [] = none
behind_prefix (k ∷ ks) (c ∷ cs) = let rest = behind_prefix ks cs in if c == k then rest else none

abbrev pub one_later : ℕ → Option (Text × Text) → Option (Text × Text)
one_later c none = none
one_later c (some (before, after)) = some (c ∷ before, after)

abbrev pub or_later : ℕ → Option Text → Option (Text × Text) → Option (Text × Text)
or_later c (some after) later = some ([], after)
or_later c none later = one_later c later

-- text.find: what stands before the first key, and behind it.
unfoldable pub find_key : Text → Option (Text × Text)
unfolding behind_prefix
find_key [] = none
find_key (c ∷ cs) = or_later c (behind_prefix key (c ∷ cs)) (find_key cs)

abbrev pub is_whitespace : ℕ → Bool
is_whitespace c = (c == 32) || ((c == 9) || ((c == 10) || (c == 13)))

abbrev pub one_more : ℕ → Text × Text → Text × Text
one_more c (space, rest) = (c ∷ space, rest)

-- skip_whitespace: what is skipped, and the rest.
unfoldable pub skip_whitespace : Text → Text × Text
skip_whitespace [] = ([], [])
skip_whitespace (c ∷ cs) =
    let rest = skip_whitespace cs in if is_whitespace c then one_more c rest else ([], c ∷ cs)

-- From the closing quote on; none when the text is cut off.
unfoldable pub skip_string : Text → Option Text
skip_string [] = none
skip_string (c ∷ []) = if c == 34 then some (c ∷ []) else none
skip_string (c ∷ d ∷ cs) =
    let one = skip_string (d ∷ cs) in
    let two = skip_string cs in if c == 34 then some (c ∷ d ∷ cs) else if c == 92 then two else one

unfoldable pub skip_value : Text → Text
skip_value [] = []
skip_value (c ∷ cs) =
    let rest = skip_value cs in if (c == 44) || ((c == 125) || (c == 93)) then c ∷ cs else rest

-- How a scan goes on: what it has copied, and the text that remains to be scanned, if any.
abbrev pub Scanned : Type 0
Scanned = Text × Option Text

abbrev pub put_before : Text → Scanned → Scanned
put_before s (copied, rest) = (s ++ copied, rest)

-- ***
abbrev pub stars : Text
stars = 42 ∷ 42 ∷ 42 ∷ []

-- At the value.
unfoldable pub scan_value : Text → Scanned
unfolding skip_string skip_value
scan_value [] = (stars, some [])
scan_value (c ∷ cs) =
    if c == 34 then (34 ∷ stars, skip_string cs) else (stars, some (skip_value (c ∷ cs)))

-- Behind the key and its white space.
unfoldable pub scan_colon : Text → Scanned
unfolding scan_value skip_whitespace
scan_colon [] = ([], some [])
scan_colon (c ∷ cs) =
    let (space, value) = skip_whitespace cs in
    if c == 58 then put_before (58 ∷ space) (scan_value value) else ([], some (c ∷ cs))

-- Behind the key.
unfoldable pub scan_key : Text → Scanned
unfolding scan_colon
scan_key after = let (space, rest) = skip_whitespace after in put_before space (scan_colon rest)

abbrev pub or_end : Scanned → (Text → Text) → Text
or_end (copied, none) f = copied
or_end (copied, some rest) f = copied ++ f rest

abbrev pub next_key : Text → Option (Text × Text) → (Text → Text) → Text
next_key text none f = text
next_key text (some (before, after)) f = before ++ (key ++ or_end (scan_key after) f)

-- The loop; each turn of it passes a key.
unfoldable pub redact : ℕ → Text → Text
unfolding scan_key find_key
redact zero text = text
redact (suc fuel) text = next_key text (find_key text) (λ rest. redact fuel rest)

unfoldable pub redact_for_log : Text → Text
unfolding redact
redact_for_log text = redact (suc (length text)) text
