-- ===== src/Prelude/Text.antt =====
-- The parts of Go's `strings` and `unicode` that the program uses.

use Prim.Native.Nat.{ℕ, ◌+◌}
use Prim.Native.Char.{Char, code}
use Prim.Native.String.{String, ◌++◌ as join}
use Prim.Native.String.append
use text.Mathlib.Text.{◌==◌ as str_eq}
use mathlib.Core.Path.{◌≡◌, refl, sym, ap, ◌∙◌}
use mathlib.Core.Logic.{◌≢◌, ◌↔◌, inl, inr}
use native.Mathlib.Omega.{arith}
use text.Mathlib.TextEquality.{eq_iff}
use mathlib.Core.Bool.{Bool, true, false, ◌&&◌, ◌||◌}
use contentflow.Prelude.Tests.{◌==◌, leb, ltb, if◌then◌else◌, Bool-cases}

-- `unicode.IsSpace`
unfoldable pub is_space : Char → Bool
is_space c =
    let n = code c in
    (leb 9 n && leb n 13)
    || n == 0x20
    || n == 0x85
    || n == 0xa0
    || n == 0x1680
    || (leb 0x2000 n && leb n 0x200a)
    || n == 0x2028
    || n == 0x2029
    || n == 0x202f
    || n == 0x205f
    || n == 0x3000

-- `strings.TrimSpace(s) == ""`
unfoldable pub is_blank : String → Bool
unfolding is_space
is_blank String.[] = true
is_blank (String.◌∷◌ c s) = is_space c && is_blank s

is_blank_spaces : is_blank " \t\n" ≡ true
unfolding is_blank
is_blank_spaces = refl

is_blank_word : is_blank " task " ≡ false
unfolding is_blank
is_blank_word = refl

-- `strings.TrimSpace`
trim_left : String → String
unfolding is_space
trim_left String.[] = String.[]
trim_left (String.◌∷◌ c s) = if is_space c then trim_left s else String.◌∷◌ c s

abbrev is_empty : String → Bool
is_empty String.[] = true
is_empty (String.◌∷◌ c s) = false

trim_right : String → String
unfolding is_space
trim_right String.[] = String.[]
trim_right (String.◌∷◌ c s) =
    let rest = trim_right s in if is_empty rest && is_space c then String.[] else String.◌∷◌ c rest

unfoldable pub trim_space : String → String
unfolding trim_left trim_right
trim_space s = trim_right (trim_left s)

-- `len(s)`: the bytes of the UTF-8 text
unfoldable pub byte_length : String → ℕ
byte_length String.[] = 0
byte_length (String.◌∷◌ c s) =
    (if ltb (code c) 0x80
      then 1
      else if ltb (code c) 0x800
      then 2
      else if ltb (code c) 0x10000
      then 3
      else 4)
    + byte_length s

trim_space_word : trim_space " two words\n" ≡ "two words"
unfolding trim_space
trim_space_word = refl

byte_length_word : byte_length "naïve" ≡ 6
unfolding byte_length
byte_length_word = refl

-- `strings.HasSuffix`
unfoldable pub has_suffix : String → String → Bool
has_suffix String.[] suffix = str_eq String.[] suffix
has_suffix (String.◌∷◌ c s) suffix = str_eq (String.◌∷◌ c s) suffix || has_suffix s suffix

itself-has_suffix : (s : String) → has_suffix s s ≡ true
unfolding has_suffix
itself-has_suffix String.[] = refl
itself-has_suffix (String.◌∷◌ c s) =
    ground (arith, (eq_iff (String.◌∷◌ c s) (String.◌∷◌ c s)).1 refl)

joined-has_suffix : (t suffix : String) → has_suffix (join t suffix) suffix ≡ true
unfolding has_suffix
joined-has_suffix String.[] suffix = rw append.nil (itself-has_suffix suffix)
joined-has_suffix (String.◌∷◌ c t) suffix =
    rw append.cons (ground (arith, joined-has_suffix t suffix))

before_suffix :
    (s suffix : String) → has_suffix s suffix ≡ true → (t : String) × (s ≡ join t suffix)
unfolding has_suffix
before_suffix String.[] suffix h =
    (String.[], (eq_iff String.[] suffix).0 h ∙ sym (append.nil suffix))
before_suffix (String.◌∷◌ c s) suffix h = elim (Bool-cases (str_eq (String.◌∷◌ c s) suffix)) [
  | inl whole ↦ (String.[], (eq_iff (String.◌∷◌ c s) suffix).0 whole ∙ sym (append.nil suffix))
  | inr part ↦
      let (t, same) = before_suffix s suffix (ground (arith, part)) in
      (String.◌∷◌ c t, ap (λ u. String.◌∷◌ c u) same ∙ sym (append.cons c t suffix))
]

-- A text lacks a suffix exactly when it is no text followed by the suffix.
pub has_suffix_iff :
    (s suffix : String) → (has_suffix s suffix ≡ false) ↔ ((t : String) → s ≢ join t suffix)
has_suffix_iff s suffix = (
  λ lacks t same. absurd (ground (arith, rw same at lacks, joined-has_suffix t suffix)),
  λ never. elim (Bool-cases (has_suffix s suffix)) [
    | inr lacks ↦ lacks
    | inl ends ↦ let (t, same) = before_suffix s suffix ends in absurd (never t same)
  ],
)

-- `strings.TrimSuffix`
unfoldable pub trim_suffix : String → String → String
trim_suffix String.[] suffix = String.[]
trim_suffix (String.◌∷◌ c s) suffix =
    if str_eq (String.◌∷◌ c s) suffix then String.[] else String.◌∷◌ c (trim_suffix s suffix)

-- `strings.Trim`, where `cut` names the characters to cut
trim_left_of : (Char → Bool) → String → String
trim_left_of cut String.[] = String.[]
trim_left_of cut (String.◌∷◌ c s) = if cut c then trim_left_of cut s else String.◌∷◌ c s

trim_right_of : (Char → Bool) → String → String
trim_right_of cut String.[] = String.[]
trim_right_of cut (String.◌∷◌ c s) =
    let rest = trim_right_of cut s in
    if is_empty rest && cut c then String.[] else String.◌∷◌ c rest

unfoldable pub trim_of : (Char → Bool) → String → String
unfolding trim_left_of trim_right_of
trim_of cut s = trim_right_of cut (trim_left_of cut s)

has_suffix_word : has_suffix "printer.local" ".local" ≡ true
unfolding has_suffix
has_suffix_word = refl

trim_suffix_word : trim_suffix "example.org." "." ≡ "example.org"
unfolding trim_suffix
trim_suffix_word = refl
