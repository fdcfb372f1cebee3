-- ===== src/Server/AuthTokens.antt =====
-- server/src/kfc/server/auth_token_store.cpp: tokens that are good for a day. A token is what the random
-- generator gives, and times are seconds of the steady clock.
pub mod Lifetime
use kung_fu_chess.Prelude.{
  string_eq, ℕ, ◌+◌, Bool, true, false, leb, if◌then◌else◌, Option, none, some,
}
use kung_fu_chess.Server.Audience.{Name}

-- AuthTokenStore::Entry.
pub record TokenEntry : Type 0 where
  pub username : Name
  pub expires_at : ℕ

abbrev pub AuthTokenStore : Type 0
AuthTokenStore = Name → Option TokenEntry

abbrev pub token_lifetime : ℕ
token_lifetime = 86400

unfoldable pub set_token : Name → Option TokenEntry → AuthTokenStore → AuthTokenStore
unfolding string_eq
set_token token entry s = λ key. if string_eq token key then entry else s key

unfoldable pub issue : Name → Name → ℕ → AuthTokenStore → AuthTokenStore
unfolding set_token
issue token username now s =
    set_token token (some (record { username = username; expires_at = now + token_lifetime })) s

unfoldable pub read_token :
    Name → ℕ → Option TokenEntry → AuthTokenStore → Option Name × AuthTokenStore
unfolding set_token
read_token token now none s = (none, s)
read_token token now (some e) s =
    if leb e.expires_at now then (none, set_token token none s) else (some e.username, s)

unfoldable pub username_for : Name → ℕ → AuthTokenStore → Option Name × AuthTokenStore
unfolding read_token
username_for token now s = read_token token now (s token) s
