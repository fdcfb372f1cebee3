-- ===== src/Server/AuthTokens/Lifetime.antt =====
-- How long a token is good.
use kung_fu_chess.Prelude.{
  string_eq, string_eq_lem, string_eq_self, ℕ, ◌+◌, ◌≤◌, ◌≡◌, refl, ◌⊎◌, inl, inr, false, ltb, leb,
  Bool-cases, if◌then◌else◌, Option, none, some, List, [], ◌∷◌, arith,
}
use kung_fu_chess.Server.Audience.{Name}
use kung_fu_chess.Server.AuthTokens.{
  TokenEntry, AuthTokenStore, token_lifetime, set_token, issue, read_token, username_for,
}

pub data TokenCall : Type 0 where
  issues : Name → Name → ℕ → TokenCall
  looks : Name → ℕ → TokenCall

unfoldable pub call_tokens : List TokenCall → AuthTokenStore → AuthTokenStore
unfolding issue username_for
call_tokens [] s = s
call_tokens (issues token username now ∷ cs) s = call_tokens cs (issue token username now s)
call_tokens (looks token now ∷ cs) s = call_tokens cs (username_for token now s).1

-- The generator does not draw the token again, and no call is later than `now`.
abbrev pub Spares : Name → ℕ → List TokenCall → Type 0
Spares token now [] = Unit
Spares token now (issues other username at_time ∷ cs) =
    (string_eq other token ≡ false) × Spares token now cs
Spares token now (looks other at_time ∷ cs) = (at_time ≤ now) × Spares token now cs

-- The entry is there, or it has run out and is gone.
abbrev Lasts : ℕ → TokenEntry → Option TokenEntry → Type 0
Lasts now e o = (o ≡ some e) ⊎ ((o ≡ none) × (e.expires_at ≤ now))

read-Lasts :
    (other token : Name) (at_time now : ℕ) (e : TokenEntry) (s : AuthTokenStore)
    (o : Option TokenEntry)
    → s other ≡ o
    → at_time ≤ now
    → Lasts now e (s token)
    → Lasts now e ((read_token other at_time o s).1 token)
unfolding read_token set_token
read-Lasts other token at_time now e s none f h l = l
read-Lasts other token at_time now e s (some d) f h l =
    elim (Bool-cases (leb d.expires_at at_time)) [
      | inl out ↦ elim (Bool-cases (string_eq other token)) [
        | inl same ↦
            let eq : other ≡ token = string_eq_lem other token same in
            let here : s token ≡ some d = rw eq at f in
            rw (out, read_token)
              (simp same (elim l [ inl there ↦ inr (refl, ground arith) | inr p ↦ absurd (cc) ]))
        | inr differs ↦ rw (out, read_token) (simp differs l)
      ]
      | inr good ↦ rw (good, read_token) l
    ]

call_tokens-Lasts :
    (cs : List TokenCall) (token : Name) (now : ℕ) (e : TokenEntry) (s : AuthTokenStore)
    → Spares token now cs
    → Lasts now e (s token)
    → Lasts now e (call_tokens cs s token)
unfolding call_tokens issue set_token username_for
call_tokens-Lasts [] token now e s p l = l
call_tokens-Lasts (issues other username t ∷ cs) token now e s (q, p) l =
    call_tokens-Lasts cs token now e (issue other username t s) p (simp q l)
call_tokens-Lasts (looks other t ∷ cs) token now e s (q, p) l =
    call_tokens-Lasts cs token now e (username_for other t s).1 p
      (read-Lasts other token t now e s (s other) refl q l)

lookup-Lasts :
    (token : Name) (now : ℕ) (e : TokenEntry) (s : AuthTokenStore) (o : Option TokenEntry)
    → Lasts now e o
    → (read_token token now o s).0 ≡ (if ltb now e.expires_at then some e.username else none)
unfolding read_token
lookup-Lasts token now e s o l = ground arith

-- A token that is issued, and then any other calls, none of which draws the same token again or is later
-- than the lookup: the lookup gives the user it was issued to when less than a day has passed, and
-- nothing otherwise.
pub issue-username_for :
    (token username : Name) (issued now : ℕ) (cs : List TokenCall) (s : AuthTokenStore)
    → Spares token now cs
    → (username_for token now (call_tokens cs (issue token username issued s))).0
      ≡ (if ltb now (issued + token_lifetime) then some username else none)
unfolding username_for issue set_token
issue-username_for token username issued now cs s p =
    let e : TokenEntry = record { username = username; expires_at = issued + token_lifetime } in
    lookup-Lasts token now e _ _ (
      call_tokens-Lasts cs token now e (issue token username issued s) p
        (inl (simp (string_eq_self token) refl)))
