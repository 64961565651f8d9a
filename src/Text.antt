-- ===== src/Text.antt =====
-- The texts that the program lowers, strips and searches, as lists of code points. Python's
-- `lower`, `strip` and `in` are written for ASCII texts, which statuses, roles and tiers are.
use mathlib.Core.List.{reverse}
use Prim.Native.Char.{code}
use nautobot_maps.Prelude.{
  zero, suc, ℕ, ◌+◌, Bool, true, false, ◌&&◌, ◌||◌, List, [], ◌∷◌, map, String, leb, ◌==◌,
  if◌then◌else◌, Option, none, some, str_eq, ◌≡◌, refl, arith,
}

abbrev pub Text : Type 0
Text = List ℕ

-- A literal.
abbrev pub text : String → Text
text String.[] = []
text (String.◌∷◌ c s) = code c ∷ text s

abbrev pub text_eq : Text → Text → Bool
text_eq [] [] = true
text_eq (a ∷ s) (b ∷ t) = a == b && text_eq s t
text_eq _ _ = false

abbrev pub is_empty : Text → Bool
is_empty [] = true
is_empty (c ∷ s) = false

unfoldable pub lower : Text → Text
lower = map (λ c. if leb b'A' c && leb c b'Z' then c + 32 else c)

abbrev pub is_space : ℕ → Bool
is_space c = leb 9 c && leb c 13 || leb 28 c && leb c 32

unfoldable pub strip_left : Text → Text
strip_left [] = []
strip_left (c ∷ s) = let rest = strip_left s in if is_space c then rest else c ∷ s

unfoldable pub strip : Text → Text
unfolding strip_left
strip s = reverse (strip_left (reverse (strip_left s)))

-- `s in texts`
abbrev pub is_in : Text → List Text → Bool
is_in s [] = false
is_in s (t ∷ texts) = text_eq s t || is_in s texts

unfoldable pub starts_with : Text → Text → Bool
starts_with s [] = true
starts_with [] (c ∷ p) = false
starts_with (a ∷ s) (c ∷ p) = a == c && starts_with s p

-- `part in s`, for two texts.
unfoldable pub has_part : Text → Text → Bool
unfolding starts_with
has_part part [] = is_empty part
has_part part (c ∷ s) = starts_with (c ∷ s) part || has_part part s

-- `d.get(s)`, for a dict with such keys.
abbrev pub lookup_text {ℓ} : {V : Type ℓ} → Text → List (Text × V) → Option V
lookup_text s [] = none
lookup_text s ((k, v) ∷ d) = if text_eq s k then some v else lookup_text s d

-- `s.strip()`, for a string.
unfoldable pub strip_start : String → String
strip_start String.[] = String.[]
strip_start (String.◌∷◌ c s) =
    let rest = strip_start s in if is_space (code c) then rest else String.◌∷◌ c s

unfoldable pub strip_end : String → String
strip_end String.[] = String.[]
strip_end (String.◌∷◌ c s) =
    let rest = strip_end s in
    if is_space (code c) && str_eq rest "" then String.[] else String.◌∷◌ c rest

unfoldable pub stripped : String → String
unfolding strip_start strip_end
stripped s = strip_end (strip_start s)

-- `len(s)`
unfoldable pub count_characters : String → ℕ
count_characters String.[] = 0
count_characters (String.◌∷◌ c s) = count_characters s + 1

-- `s[:n]`
unfoldable pub first_characters : ℕ → String → String
first_characters n String.[] = String.[]
first_characters zero (String.◌∷◌ c s) = String.[]
first_characters (suc n) (String.◌∷◌ c s) = String.◌∷◌ c (first_characters n s)

-- `a + b`, for strings.
abbrev pub joined : String → String → String
joined String.[] b = b
joined (String.◌∷◌ c s) b = String.◌∷◌ c (joined s b)

-- `s[:n]`, `s.split(c, 1)[0]` and `s.count(c)`, for a text.
abbrev pub first_codes : ℕ → Text → Text
first_codes n [] = []
first_codes zero (c ∷ s) = []
first_codes (suc n) (c ∷ s) = c ∷ first_codes n s

abbrev pub until : ℕ → Text → Text
until d [] = []
until d (c ∷ s) = let rest = until d s in if c == d then [] else c ∷ rest

abbrev pub count_code : ℕ → Text → ℕ
count_code d [] = 0
count_code d (c ∷ s) = let rest = count_code d s in if c == d then suc rest else rest

abbrev pub text_or : Text → Text → Text
text_or [] t = t
text_or (c ∷ s) t = c ∷ s

pub text_eq_refl : (s : Text) → text_eq s s ≡ true
text_eq_refl [] = refl
text_eq_refl (c ∷ s) = ground (arith, text_eq_refl s)

pub text_eq_sound : (s t : Text) → text_eq s t ≡ true → s ≡ t
text_eq_sound [] [] h = refl
text_eq_sound [] (c ∷ t) h = cc
text_eq_sound (c ∷ s) [] h = cc
text_eq_sound (c ∷ s) (d ∷ t) h = ground (arith, text_eq_sound s t)
