-- ===== src/Prelude/Text.antt =====
-- Texts: equality, suffixes, replacement.
use Prim.Native.Char.{Char, code}
use Prim.Native.Nat.{ℕ, zero, suc, ◌+◌, ◌/◌, ◌%◌}
use Prim.Native.String.{String, [], ◌∷◌, ◌++◌, slice}
use mathlib.Core.Path.{◌≡◌, refl, ap, sym, ◌∙◌}
use mathlib.Core.Logic.{inl, inr}
use mathlib.Core.Bool.{true≢false, Bool, true, false, ◌||◌, ◌&&◌}
use text.Mathlib.Text.{◌==◌}
use text.Mathlib.TextEquality.{eq_iff, Char-path}
use text.Mathlib.TextLemmas.{nil-append, cons-append}
use sport_crawl.Prelude.Tests.{ltb, if◌then◌else◌, Bool-cases}
use sport_crawl.Prelude.Tests as Tests

abbrev pub str_eq : String → String → Bool
str_eq a b = a == b

-- str of a number; as many steps as the number are enough for its digits.
abbrev pub digits : ℕ → ℕ → String
digits zero n = slice "0123456789" n (n + 1)
digits (suc k) n =
    let d = n % 10 in
    let before = digits k (n / 10) in
    let digit = slice "0123456789" d (d + 1) in if ltb n 10 then digit else before ++ digit

abbrev pub str : ℕ → String
str n = digits n n

-- str.endswith.
unfoldable pub ends_with : String → String → Bool
ends_with [] t = [] == t
ends_with (c ∷ s) t = let later = ends_with s t in if (c ∷ s) == t then true else later

-- f".{text}"
abbrev pub dotted : String → String
dotted text = "." ∷ text

-- str.replace of one character.
abbrev pub replace : Char → String → String → String
replace old new [] = []
replace old new (c ∷ s) =
    let rest = replace old new s in if Tests.◌==◌ (code c) (code old) then new ++ rest else c ∷ rest

-- Whether any of the characters of the first text stands in the second.
abbrev pub has_char : Char → String → Bool
has_char d [] = false
has_char d (c ∷ s) = let rest = has_char d s in Tests.◌==◌ (code c) (code d) || rest

abbrev pub any_char : String → String → Bool
any_char [] text = false
any_char (c ∷ s) text = let rest = any_char s text in has_char c text || rest

abbrev pub is_ascii : String → Bool
is_ascii [] = true
is_ascii (c ∷ s) = let rest = is_ascii s in ltb (code c) 128 && rest

pub ends_with_refl : (t : String) → ends_with t t ≡ true
unfolding ends_with
ends_with_refl [] = refl
ends_with_refl (c ∷ t) = rw ((eq_iff (c ∷ t) (c ∷ t)).1 refl) refl

ends_with_cons : (c : Char) (s t : String) → ends_with s t ≡ true → ends_with (c ∷ s) t ≡ true
unfolding ends_with
ends_with_cons c s t h = elim (Bool-cases ((c ∷ s) == t)) [
  | inl same ↦ rw same refl
  | inr other ↦ rw other h
]

pub ends_with-append : (p t : String) → ends_with (p ++ t) t ≡ true
ends_with-append [] t = rw (nil-append t) (ends_with_refl t)
ends_with-append (c ∷ p) t =
    rw (cons-append c p t) (ends_with_cons c (p ++ t) t (ends_with-append p t))

pub append_of_ends_with : (s t : String) → ends_with s t ≡ true → (p : String) × (p ++ t ≡ s)
unfolding ends_with
append_of_ends_with [] t h = ("", nil-append t ∙ sym ((eq_iff "" t).0 h))
append_of_ends_with (c ∷ s) t h = elim (Bool-cases ((c ∷ s) == t)) [
  | inl same ↦ ("", nil-append t ∙ sym ((eq_iff (c ∷ s) t).0 same))
  | inr other ↦
      let (p, e) = append_of_ends_with s t (rw other at h) in
      (c ∷ p, cons-append c p t ∙ ap (λ x. c ∷ x) e)
]

pub str_eq_comm : (a b : String) → str_eq a b ≡ str_eq b a
str_eq_comm a b = elim (Bool-cases (str_eq a b)) [
  | inl yes_ab ↦ yes_ab ∙ sym ((eq_iff b a).1 (sym ((eq_iff a b).0 yes_ab)))
  | inr no_ab ↦ elim (Bool-cases (str_eq b a)) [
    | inl yes_ba ↦ (eq_iff a b).1 (sym ((eq_iff b a).0 yes_ba)) ∙ sym yes_ba
    | inr no_ba ↦ no_ab ∙ sym no_ba
  ]
]

-- str.startswith.
abbrev pub starts_with : String → String → Bool
starts_with s [] = true
starts_with [] (d ∷ t) = false
starts_with (c ∷ s) (d ∷ t) = let rest = starts_with s t in Tests.◌==◌ (code c) (code d) && rest

-- text[len(prefix):]
abbrev pub drop_prefix : String → String → String
drop_prefix [] s = s
drop_prefix (d ∷ t) [] = []
drop_prefix (d ∷ t) (c ∷ s) = drop_prefix t s

pub append-drop_prefix : (t s : String) → starts_with s t ≡ true → t ++ drop_prefix t s ≡ s
append-drop_prefix [] s h = nil-append s
append-drop_prefix (d ∷ t) [] h = absurd (true≢false (sym h))
append-drop_prefix (d ∷ t) (c ∷ s) h = elim (Bool-cases (Tests.◌==◌ (code c) (code d))) [
  | inl same ↦
      cons-append d t (drop_prefix t s)
      ∙ ap (λ x. d ∷ x) (append-drop_prefix t s (rw same at h))
      ∙ ap (λ x. x ∷ s) (sym (Char-path c d ((Tests.==_iff (code c) (code d)).0 same)))
  | inr other ↦ absurd (true≢false (sym (rw other at h)))
]

pub starts_with-append : (t s : String) → starts_with (t ++ s) t ≡ true
starts_with-append [] s = refl
starts_with-append (d ∷ t) s =
    rw (cons-append d t s, (Tests.==_iff (code d) (code d)).1 refl) (starts_with-append t s)

pub drop_prefix-append : (t s : String) → drop_prefix t (t ++ s) ≡ s
drop_prefix-append [] s = nil-append s
drop_prefix-append (d ∷ t) s = rw (cons-append d t s) (drop_prefix-append t s)
