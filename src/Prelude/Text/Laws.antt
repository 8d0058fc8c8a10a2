-- ===== src/Prelude/Text/Laws.antt =====
-- Laws of the text operations.
use Prim.Native.Char.{Char, code}
use Prim.Native.String.{String, ◌++◌}
use mathlib.Core.Path.{◌≡◌, refl, ap, ap₂, sym, ◌∙◌}
use mathlib.Core.Bool.{true}
use mathlib.Core.List.{List, [], ◌∷◌}
use mathlib.Core.Logic.{inl, inr, ◌≢◌}
use native.Mathlib.Omega.{arith}
use Prim.Native.Nat.{ℕ}
use text.Mathlib.TextEquality.{Char-path}
use text.Mathlib.TextLemmas.{nil-append, cons-append}
use enterprise_databrick_fra.Prelude.Tests.{Bool-cases}
use enterprise_databrick_fra.Prelude.Text.{
  join, between, is_name_char, all_name_chars, is_identifier, cons_first, split_dots,
  replace_others,
}

-- Whatever the text, the replaced one holds name characters only.
pub all_name_chars-replace_others : (s : String) → all_name_chars (replace_others s) ≡ true
unfolding all_name_chars replace_others
all_name_chars-replace_others String.[] = refl
all_name_chars-replace_others (String.◌∷◌ c s) = elim (Bool-cases (is_name_char (code c))) [
  | inl kept ↦ rw (kept, kept, all_name_chars-replace_others s)
  | inr other ↦ rw (other, all_name_chars-replace_others s)
]

-- A text without a dot is one part.
pub split_dots_name : (s : String) → all_name_chars s ≡ true → split_dots s ≡ s ∷ []
unfolding all_name_chars split_dots
split_dots_name String.[] h = refl
split_dots_name (String.◌∷◌ c s) h = ground (arith, split_dots_name s)

pub all_name_chars_identifier : (s : String) → is_identifier s ≡ true → all_name_chars s ≡ true
unfolding is_identifier
all_name_chars_identifier String.[] h = refl
all_name_chars_identifier (String.◌∷◌ c s) h = ground arith

dot-append : (t : String) → "." ++ t ≡ String.◌∷◌ "." t
dot-append t = cons-append "." String.[] t ∙ ap (String.◌∷◌ ".") (nil-append t)

-- A name in front of a dot is the first part.
pub split_dots-append :
    (s t : String) → all_name_chars s ≡ true → split_dots (s ++ ("." ++ t)) ≡ s ∷ split_dots t
unfolding all_name_chars split_dots
split_dots-append String.[] t h = rw (nil-append, dot-append)
split_dots-append (String.◌∷◌ c s) t h = rw cons-append (ground (arith, split_dots-append s t))

join-cons_first :
    (c : Char) (parts : List String)
    → parts ≢ []
    → join "." (cons_first c parts) ≡ String.◌∷◌ c (join "." parts)
unfolding join
join-cons_first c [] h = absurd (h refl)
join-cons_first c (p ∷ []) h = refl
join-cons_first c (p ∷ q ∷ parts) h = cons-append c p _

cons_first-ne-nil : (c : Char) (parts : List String) → cons_first c parts ≢ []
cons_first-ne-nil c [] h = cc
cons_first-ne-nil c (p ∷ parts) h = cc

split_dots-ne-nil : (s : String) → split_dots s ≢ []
unfolding split_dots
split_dots-ne-nil String.[] h = cc
split_dots-ne-nil (String.◌∷◌ c s) h = elim (Bool-cases (between 46 46 (code c))) [
  | inl dot ↦ cc (rw dot at h)
  | inr other ↦ cons_first-ne-nil c (split_dots s) (rw other at h)
]

join-nil :
    (parts : List String)
    → parts ≢ []
    → join "." (String.[] ∷ parts) ≡ String.◌∷◌ "." (join "." parts)
unfolding join
join-nil [] h = absurd (h refl)
join-nil (p ∷ parts) h = rw nil-append (dot-append _)

is_dot : (n : ℕ) → between 46 46 n ≡ true → n ≡ 46
is_dot n h = ground arith

-- Joining the parts gives the text back.
pub join-split_dots : (s : String) → join "." (split_dots s) ≡ s
unfolding split_dots
join-split_dots String.[] = unfold join in refl
join-split_dots (String.◌∷◌ c s) = elim (Bool-cases (between 46 46 (code c))) [
  | inl dot ↦ rw dot (
      join-nil (split_dots s) (split_dots-ne-nil s)
      ∙ ap₂ String.◌∷◌ (sym (Char-path c "." (is_dot (code c) dot))) (join-split_dots s))
  | inr other ↦ rw other (
      join-cons_first c (split_dots s) (split_dots-ne-nil s)
      ∙ ap (String.◌∷◌ c) (join-split_dots s))
]

pub split_dots-injective : (s t : String) → split_dots s ≡ split_dots t → s ≡ t
split_dots-injective s t e = sym (join-split_dots s) ∙ ap (join ".") e ∙ join-split_dots t
