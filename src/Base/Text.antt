-- ===== src/Base/Text.antt =====
-- The order of Rust's `str`: by the first byte that differs. UTF-8 orders texts as their characters
-- do.
use Prim.Native.Char.{code}
use text.Mathlib.TextEquality.{Char-path}
use atomic_mesh.Base.{
  ◌≡◌, refl, ◌⊎◌, inl, inr, Bool, true, false, String, arith, ltb, if◌then◌else◌, ◌==◌, nat_eq,
}

abbrev pub str_ltb : String → String → Bool
str_ltb s String.[] = false
str_ltb String.[] (String.◌∷◌ d t) = true
str_ltb (String.◌∷◌ c s) (String.◌∷◌ d t) =
    if code c == code d then str_ltb s t else ltb (code c) (code d)

pub str_ltb_irrefl : (s : String) → str_ltb s s ≡ false
str_ltb_irrefl String.[] = refl
str_ltb_irrefl (String.◌∷◌ c s) = ground (arith, str_ltb_irrefl s)

pub str_ltb_trans : (s t u : String) → str_ltb s t ≡ true → str_ltb t u ≡ true → str_ltb s u ≡ true
str_ltb_trans s t String.[] p q = cc
str_ltb_trans s String.[] (String.◌∷◌ e u) p q = cc
str_ltb_trans String.[] (String.◌∷◌ d t) (String.◌∷◌ e u) p q = refl
str_ltb_trans (String.◌∷◌ c s) (String.◌∷◌ d t) (String.◌∷◌ e u) p q =
    ground (arith, str_ltb_trans s t u)

pub str_ltb_total : (s t : String) → (str_ltb s t ≡ true) ⊎ ((str_ltb t s ≡ true) ⊎ (s ≡ t))
str_ltb_total String.[] String.[] = inr (inr refl)
str_ltb_total String.[] (String.◌∷◌ d t) = inl refl
str_ltb_total (String.◌∷◌ c s) String.[] = inr (inl refl)
str_ltb_total (String.◌∷◌ c s) (String.◌∷◌ d t) = ground (arith, str_ltb_total s t, Char-path c d)
