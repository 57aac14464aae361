-- ===== src/Harness/Patterns.antt =====
-- cli/smoke_clearance_real.py, scan_for_sensitive: the five patterns, on ASCII text.
use Prim.Native.Char.{Char, code}
use Prim.Native.String.{String, [], ◌∷◌}
use sport_crawl.Prelude.{
  ℕ, zero, suc, ◌+◌, Bool, true, false, ◌||◌, ◌&&◌, not, leb, ◌==◌, if◌then◌else◌,
}

abbrev pub between : ℕ → ℕ → Char → Bool
between lo hi c = leb lo (code c) && leb (code c) hi

-- [a-zA-Z], [0-9], \w, \s.
abbrev pub is_letter : Char → Bool
is_letter c = between 65 90 c || between 97 122 c

abbrev pub is_digit : Char → Bool
is_digit c = between 48 57 c

abbrev pub is_word : Char → Bool
is_word c = is_letter c || is_digit c || code c == 95

abbrev pub is_space : Char → Bool
is_space c = between 9 13 c || between 28 32 c

abbrev pub is_hex : Char → Bool
is_hex c = is_digit c || between 97 102 c || between 65 70 c

abbrev pub lower : ℕ → ℕ
lower n = if leb 65 n && leb n 90 then n + 32 else n

-- A text that begins with a word, whatever the case of its letters, and what follows it; the test of
-- what follows is that of the rest of the pattern.
unfoldable pub after_word : String → (String → Bool) → String → Bool
after_word [] next s = next s
after_word (d ∷ word) next [] = false
after_word (d ∷ word) next (c ∷ s) =
    let rest = after_word word next s in (lower (code c) == lower (code d)) && rest

-- \s*, before what is no blank.
unfoldable pub after_spaces : (String → Bool) → String → Bool
after_spaces next [] = next []
after_spaces next (c ∷ s) =
    let rest = after_spaces next s in if is_space c then rest else next (c ∷ s)

-- \S
abbrev pub starts_visible : String → Bool
starts_visible [] = false
starts_visible (c ∷ s) = not (is_space c)

-- [0-9a-fA-F]{32,}, with the digits that the run still needs.
unfoldable pub hex_run : ℕ → String → Bool
hex_run zero s = true
hex_run (suc n) [] = false
hex_run (suc n) (c ∷ s) = is_hex c && hex_run n s

-- \b after a word.
abbrev pub ends_word : String → Bool
ends_word [] = true
ends_word (c ∷ s) = not (is_word c)

-- [=:]\s*\S+
abbrev pub assigned : String → Bool
assigned [] = false
assigned (c ∷ s) = (code c == 61 || code c == 58) && after_spaces starts_visible s

abbrev pub key_end : String → Bool
key_end s = ends_word s && after_spaces assigned s

-- \b(password|secret|token|api_key|auth_key)\b\s*[=:]\s*\S+, from the first character of the key.
abbrev pub key_name : String → Bool
key_name s =
    after_word "password" key_end s
    || after_word "secret" key_end s
    || after_word "token" key_end s
    || after_word "api_key" key_end s
    || after_word "auth_key" key_end s

-- [^/@\s]
abbrev pub is_userinfo : Char → Bool
is_userinfo c = not (code c == 47 || code c == 64 || is_space c)

-- [^/@\s]*@, after `:` and one more character.
unfoldable pub to_at : String → Bool
to_at [] = false
to_at (c ∷ s) = let rest = to_at s in if code c == 64 then true else is_userinfo c && rest

abbrev pub password_part : String → Bool
password_part [] = false
password_part (c ∷ s) = is_userinfo c && to_at s

-- [^/@\s]*:[^/@\s]+@, after one character; a colon may also be one of the characters before.
unfoldable pub user_part : String → Bool
user_part [] = false
user_part (c ∷ s) =
    let rest = user_part s in (code c == 58 && password_part s) || (is_userinfo c && rest)

abbrev pub userinfo : String → Bool
userinfo [] = false
userinfo (c ∷ s) = is_userinfo c && user_part s

-- [a-zA-Z0-9+\-.]*://
abbrev pub is_scheme : Char → Bool
is_scheme c = is_letter c || is_digit c || code c == 43 || code c == 45 || code c == 46

unfoldable pub scheme_part : String → Bool
scheme_part [] = false
scheme_part (c ∷ s) =
    let rest = scheme_part s in if is_scheme c then rest else after_word "://" userinfo (c ∷ s)

abbrev pub url_credential : String → Bool
url_credential [] = false
url_credential (c ∷ s) = is_letter c && scheme_part s

abbrev pub equals : String → Bool
equals [] = false
equals (c ∷ s) = code c == 61

abbrev pub cookie : String → Bool
cookie s = after_word "cf_clearance" (after_spaces equals) s

abbrev pub dsn : String → Bool
dsn s = after_word "postgres://" starts_visible s || after_word "postgresql://" starts_visible s

-- pattern.search for the five patterns at once; `after_word_char` is whether a word character stands
-- before.
unfoldable pub search_from : Bool → String → Bool
search_from inside [] = false
search_from inside (c ∷ s) =
    let later = search_from (is_word c) s in
    hex_run 32 (c ∷ s)
    || (not inside && key_name (c ∷ s))
    || url_credential (c ∷ s)
    || cookie (c ∷ s)
    || dsn (c ∷ s)
    || later

unfoldable pub scan_for_sensitive : String → Bool
unfolding search_from hex_run user_part to_at scheme_part after_word after_spaces
scan_for_sensitive value = search_from false value
