-- ===== src/Text.antt =====
-- The parts of Go's package strings that the program uses. A string is the list of its code
-- points, so `[]rune(s)` is the string itself and `len([]rune(s))` its length.
pub mod Trim
pub mod Maps
use Prim.Native.Char.{code}
use Prim.Native.String.{String}
use frost_agent.Prelude.{
  ℕ, zero, suc, ◌+◌, ◌-◌, ◌≡◌, refl, ◌↔◌, Bool, true, false, ◌&&◌, ◌||◌, Option, none, some, List,
  [], ◌∷◌, reverse, arith, leb, ltb, ◌==◌, if◌then◌else◌, any, length, take,
}

abbrev pub Text : Type 0
Text = List ℕ

-- The code points of a literal.
abbrev pub codes : String → Text
codes String.[] = []
codes (String.◌∷◌ c s) = code c ∷ codes s

-- s == t
unfoldable pub text_eq : Text → Text → Bool
text_eq [] [] = true
text_eq [] (d ∷ ds) = false
text_eq (c ∷ cs) [] = false
text_eq (c ∷ cs) (d ∷ ds) = (c == d) && text_eq cs ds

-- s == ""
abbrev pub is_empty : Text → Bool
is_empty [] = true
is_empty (c ∷ cs) = false

-- s < t
unfoldable pub text_ltb : Text → Text → Bool
text_ltb s [] = false
text_ltb [] (d ∷ ds) = true
text_ltb (c ∷ cs) (d ∷ ds) = let rest = text_ltb cs ds in if c == d then rest else ltb c d

text_eq_sound : (s t : Text) → text_eq s t ≡ true → s ≡ t
unfolding text_eq
text_eq_sound [] [] h = refl
text_eq_sound [] (d ∷ ds) h = ground arith
text_eq_sound (c ∷ cs) [] h = ground arith
text_eq_sound (c ∷ cs) (d ∷ ds) h = ground (arith, text_eq_sound cs ds)

pub text_eq_refl : (s : Text) → text_eq s s ≡ true
unfolding text_eq
text_eq_refl [] = refl
text_eq_refl (c ∷ cs) = ground (arith, text_eq_refl cs)

text_eq_complete : (s t : Text) → s ≡ t → text_eq s t ≡ true
text_eq_complete s t e = rw e (text_eq_refl t)

pub text_eq_iff : (s t : Text) → (text_eq s t ≡ true) ↔ (s ≡ t)
text_eq_iff s t = (text_eq_sound s t, text_eq_complete s t)

-- slices.Contains(texts, s)
unfoldable pub contains : List Text → Text → Bool
unfolding text_eq
contains texts s = any (λ t. text_eq t s) texts

-- unicode.IsSpace
unfoldable pub is_space : ℕ → Bool
is_space c =
    (leb 9 c && leb c 13)
    || c == 32
    || c == 0x85
    || c == 0xA0
    || c == 0x1680
    || (leb 0x2000 c && leb c 0x200A)
    || c == 0x2028
    || c == 0x2029
    || c == 0x202F
    || c == 0x205F
    || c == 0x3000

unfoldable pub trim_left : Text → Text
unfolding is_space
trim_left [] = []
trim_left (c ∷ cs) = let rest = trim_left cs in if is_space c then rest else c ∷ cs

-- strings.TrimSpace
unfoldable pub trim_space : Text → Text
unfolding trim_left
trim_space s = reverse (trim_left (reverse (trim_left s)))

-- strings.Index, at code points: the place of the first occurrence.
unfoldable pub index : Text → Text → Option ℕ
index pattern [] = if is_empty pattern then some 0 else none
index pattern (c ∷ cs) =
    if text_eq (take (length pattern) (c ∷ cs)) pattern
    then some 0
    else (elim (index pattern cs) [ none ↦ none | some i ↦ some (suc i) ])

-- What strings.ToLower makes of a code point, as far as the result is an ASCII letter: the capital
-- letters, the dotted capital I and the Kelvin sign.
unfoldable pub ascii_lower : ℕ → ℕ
ascii_lower c =
    if leb b'A' c && leb c b'Z'
    then c + 32
    else (if c == 0x130 then b'i' else if c == 0x212A then b'k' else c)

-- strings.HasPrefix(strings.ToLower(s), prefix) for a prefix of ASCII signs.
unfoldable pub has_lower_prefix : Text → Text → Bool
unfolding ascii_lower
has_lower_prefix s [] = true
has_lower_prefix [] (d ∷ ds) = false
has_lower_prefix (c ∷ cs) (d ∷ ds) = (ascii_lower c == d) && has_lower_prefix cs ds

-- The bytes of a code point in UTF-8.
unfoldable pub width : ℕ → ℕ
width c = if ltb c 0x80 then 1 else if ltb c 0x800 then 2 else if ltb c 0x10000 then 3 else 4

-- s[n:] where n bytes end at a code point's border.
unfoldable pub drop_bytes : ℕ → Text → Text
unfolding width
drop_bytes zero s = s
drop_bytes (suc n) [] = []
drop_bytes (suc n) (c ∷ cs) = drop_bytes (suc n - width c) cs
