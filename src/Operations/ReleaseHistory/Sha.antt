-- ===== src/Operations/ReleaseHistory/Sha.antt =====
-- The form of a recorded commit.
use Prim.Native.Char.{Char, code}
use enterprise_databrick_fra.Prelude.{
  ℕ, zero, suc, String, Bool, true, false, ◌||◌, ok, if◌then◌else◌, ◌≡◌, inl, inr, refl, arith,
  Bool-cases,
}
use enterprise_databrick_fra.Prelude.Text.{between}
use enterprise_databrick_fra.Operations.ReleaseHistory.{
  is_hex, is_hex_of, lower_char, lower, validate_git_sha,
}

-- The class [0-9a-f].
abbrev pub is_lower_hex : Char → Bool
is_lower_hex c = between 48 57 (code c) || between 97 102 (code c)

-- As many characters of the class [0-9a-f].
abbrev pub IsLowerHex : ℕ → String → Type 0
IsLowerHex zero String.[] = Unit
IsLowerHex (suc n) (String.◌∷◌ c s) = (is_lower_hex c ≡ true) × IsLowerHex n s
IsLowerHex _ _ = ⊥

is_lower_hex_if :
    (b : Bool) (x y : Char)
    → is_lower_hex x ≡ true
    → (b ≡ false → is_lower_hex y ≡ true)
    → is_lower_hex (if b then x else y) ≡ true
is_lower_hex_if true x y hx hy = hx
is_lower_hex_if false x y hx hy = hy refl

is_lower_hex-lower_char : (c : Char) → is_hex (code c) ≡ true → is_lower_hex (lower_char c) ≡ true
is_lower_hex-lower_char c h = is_lower_hex_if (between 65 65 (code c)) "a" _ refl (λ a.
    is_lower_hex_if (between 66 66 (code c)) "b" _ refl (λ b.
      is_lower_hex_if (between 67 67 (code c)) "c" _ refl (λ d.
        is_lower_hex_if (between 68 68 (code c)) "d" _ refl (λ e.
          is_lower_hex_if (between 69 69 (code c)) "e" _ refl
            (λ f. is_lower_hex_if (between 70 70 (code c)) "f" _ refl (λ g. ground arith))))))

lower-IsLowerHex : (n : ℕ) (s : String) → is_hex_of n s ≡ true → IsLowerHex n (lower s)
unfolding is_hex_of lower
lower-IsLowerHex zero String.[] h = tt
lower-IsLowerHex zero (String.◌∷◌ c s) h = cc
lower-IsLowerHex (suc n) String.[] h = cc
lower-IsLowerHex (suc n) (String.◌∷◌ c s) h =
    (is_lower_hex-lower_char c (ground arith), lower-IsLowerHex n s (ground arith))

lower_char_same : (c : Char) → is_lower_hex c ≡ true → lower_char c ≡ c
lower_char_same c h = ground arith

IsLowerHex-lower : (n : ℕ) (s : String) → IsLowerHex n s → (is_hex_of n s ≡ true) × (lower s ≡ s)
unfolding is_hex_of lower
IsLowerHex-lower zero String.[] h = (refl, refl)
IsLowerHex-lower zero (String.◌∷◌ c s) h = absurd h
IsLowerHex-lower (suc n) String.[] h = absurd h
IsLowerHex-lower (suc n) (String.◌∷◌ c s) h =
    let (rest, same) = IsLowerHex-lower n s h.1 in
    (ground arith, rw (lower_char_same c h.0, same) refl)

-- A commit that validation returns has 40 characters of 0 to 9 and a to f, and validation returns
-- it again.
pub validate_git_sha-IsLowerHex :
    (value recorded : String)
    → validate_git_sha value ≡ ok recorded
    → IsLowerHex 40 recorded × (validate_git_sha recorded ≡ ok recorded)
unfolding validate_git_sha
validate_git_sha-IsLowerHex value recorded h = elim (Bool-cases (is_hex_of 40 value)) [
  | inl hex ↦
      let same : lower value ≡ recorded = ground arith in
      let canonical = lower-IsLowerHex 40 value hex in
      let (again, fixed) = IsLowerHex-lower 40 (lower value) canonical in
      rw⁻¹ same (canonical, rw (again, fixed) refl)
  | inr other ↦ absurd (cc (rw other at h))
]
