-- ===== src/Prelude/Strings.antt =====
-- Text as the list of its code points, with the ASCII part of Python's `str` methods that the
-- program calls: `lower`, `upper`, `strip`, `startswith`, comparison and slicing.
use Prim.Native.Nat.{ℕ, zero, suc, ◌+◌, ◌-◌}
use Prim.Native.Char.{code}
use Prim.Native.String.{String}
use mathlib.Core.Path.{◌≡◌, refl}
use mathlib.Core.Bool.{Bool, true, false, ◌||◌, ◌&&◌}
use mathlib.Core.List.{List, [], ◌∷◌, map, reverse, reverse_aux, reverse-reverse}
use native.Mathlib.Omega.{arith}
use tenantforge.Prelude.Tests.{leb, ◌==◌, if◌then◌else◌}

abbrev pub Text : Type 0
Text = List ℕ

-- A literal of the source.
abbrev pub codes : String → Text
codes String.[] = []
codes (String.◌∷◌ c s) = code c ∷ codes s

-- `==` on `str`.
unfoldable pub text_eq : Text → Text → Bool
text_eq [] [] = true
text_eq (a ∷ s) (b ∷ t) = (a == b) && text_eq s t
text_eq _ _ = false

lower_code : ℕ → ℕ
lower_code c = if leb b'A' c && leb c b'Z' then c + 32 else c

upper_code : ℕ → ℕ
upper_code c = if leb b'a' c && leb c b'z' then c - 32 else c

-- `str.lower()`.
unfoldable pub lower : Text → Text
unfolding lower_code
lower = map lower_code

-- `str.upper()`.
unfoldable pub upper : Text → Text
unfolding upper_code
upper = map upper_code

unfoldable pub is_space : ℕ → Bool
is_space c = (c == 32) || (leb 9 c && leb c 13) || (leb 28 c && leb c 31)

lstrip : Text → Text
unfolding is_space
lstrip [] = []
lstrip (c ∷ s) = if is_space c then lstrip s else c ∷ s

-- `str.strip()`.
unfoldable pub strip : Text → Text
unfolding lstrip
strip s = reverse (lstrip (reverse (lstrip s)))

-- A text without blanks is not shortened.
abbrev pub Unspaced : Text → Type 0
Unspaced [] = Unit
Unspaced (c ∷ s) = (is_space c ≡ false) × Unspaced s

reverse_aux-Unspaced : (s t : Text) → Unspaced s → Unspaced t → Unspaced (reverse_aux s t)
reverse_aux-Unspaced [] t h k = k
reverse_aux-Unspaced (c ∷ s) t h k = reverse_aux-Unspaced s (c ∷ t) h.1 (h.0, k)

lstrip-Unspaced : (s : Text) → Unspaced s → lstrip s ≡ s
unfolding lstrip
lstrip-Unspaced [] h = refl
lstrip-Unspaced (c ∷ s) h = rw (h.0) refl

pub strip-Unspaced : (s : Text) → Unspaced s → strip s ≡ s
unfolding strip
strip-Unspaced s h =
    rw (lstrip-Unspaced s h, lstrip-Unspaced (reverse s) (reverse_aux-Unspaced s [] h tt))
      (reverse-reverse s)

-- `str.startswith(p)`.
unfoldable pub starts_with : Text → Text → Bool
starts_with s [] = true
starts_with [] (b ∷ p) = false
starts_with (a ∷ s) (b ∷ p) = (a == b) && starts_with s p

-- `s[:n]`.
unfoldable pub prefix : ℕ → Text → Text
prefix zero s = []
prefix (suc n) [] = []
prefix (suc n) (a ∷ s) = a ∷ prefix n s

pub text_eq_refl : (s : Text) → text_eq s s ≡ true
unfolding text_eq
text_eq_refl [] = refl
text_eq_refl (a ∷ s) = ground (arith, text_eq_refl s)

pub text_eq→eq : (s t : Text) → text_eq s t ≡ true → s ≡ t
unfolding text_eq
text_eq→eq [] [] h = refl
text_eq→eq (a ∷ s) (b ∷ t) h = ground (arith, text_eq→eq s t)
text_eq→eq [] (b ∷ t) h = cc
text_eq→eq (a ∷ s) [] h = cc

lower_code_idem : (c : ℕ) → lower_code (lower_code c) ≡ lower_code c
unfolding lower_code
lower_code_idem c = ground arith

-- Lower-casing twice is lower-casing once.
pub lower_idem : (s : Text) → lower (lower s) ≡ lower s
unfolding lower
lower_idem [] = refl
lower_idem (c ∷ s) = cc (lower_code_idem c, lower_idem s)
