-- ===== src/Feed/Normalizer/RoundTrip.antt =====
-- A symbol's pair is read back as the symbol.
use Prim.Native.Char.{Char, code}
use atomic_mesh.Base.{
  ℕ, suc, ◌+◌, ◌≡◌, ◌≢◌, ◌⊎◌, inl, inr, refl, sym, ◌∙◌, ap, subst, Bool, true, false, Option, none,
  some, String, string_eq, ◌==◌, nat_eq, if◌then◌else◌, arith, Bool-cases, Option-cases, str_append,
  beq_refl,
}
use atomic_mesh.Core.Types.{Symbol, pair}
use atomic_mesh.Feed.Normalizer.{
  without, strip_suffix, behind, symbol_by_suffix, parse_symbol, FeedNormalizer,
}

-- No character of the text has this code.
abbrev pub Without : ℕ → String → Type 0
Without n String.[] = Unit
Without n (String.◌∷◌ c s) = (code c ≢ n) × Without n s

size : String → ℕ
size String.[] = 0
size (String.◌∷◌ c s) = suc (size s)

size-append : (s t : String) → size (str_append s t) ≡ size s + size t
unfolding size
size-append String.[] t = omega arith
size-append (String.◌∷◌ c s) t = omega (arith, size-append s t)

-- The code of the last character, 0 for no character.
last_code : ℕ → String → ℕ
last_code n String.[] = n
last_code n (String.◌∷◌ c s) = last_code (code c) s

last_code-append :
    (n m : ℕ) (s : String) (c : Char) (t : String)
    → last_code n (str_append s (String.◌∷◌ c t)) ≡ last_code m (String.◌∷◌ c t)
unfolding last_code
last_code-append n m String.[] c t = refl
last_code-append n m (String.◌∷◌ d s) c t = last_code-append (code d) m s c t

-- A text that is longer than another one is another text.
longer_other : (c : Char) (s t : String) → (String.◌∷◌ c (str_append s t) == t) ≡ false
longer_other c s t = elim (Bool-cases (String.◌∷◌ c (str_append s t) == t)) [
  | inl same ↦
      absurd (
        unfold size in omega (arith, size-append s t, ap size ((string_eq.beq_decides _ t).0 same)))
  | inr other ↦ other
]

strip_suffix-append : (s t : String) → strip_suffix (str_append s t) t ≡ some s
unfolding strip_suffix
strip_suffix-append String.[] String.[] = refl
strip_suffix-append String.[] (String.◌∷◌ c t) = rw (beq_refl (String.◌∷◌ c t)) refl
strip_suffix-append (String.◌∷◌ c s) t =
    rw (longer_other c s t) (ap (behind c) (strip_suffix-append s t))

value_or : String → Option String → String
value_or t none = t
value_or t (some s) = s

-- What an equation of a choice says, once the test is known.
chosen :
    (b : Bool) (x y : Option String) (r : String)
    → (if b then x else y) ≡ some r
    → ((b ≡ true) × (x ≡ some r)) ⊎ ((b ≡ false) × (y ≡ some r))
chosen true x y r h = inl (refl, h)
chosen false x y r h = inr (refl, h)

behind-some :
    (c : Char) (o : Option String) (r : String)
    → behind c o ≡ some r
    → (q : String) × (o ≡ some q) × (String.◌∷◌ c q ≡ r)
unfolding value_or
behind-some c none r h = ground arith
behind-some c (some q) r h = (q, refl, ap (value_or String.[]) h)

strip_suffix-some : (s t r : String) → strip_suffix s t ≡ some r → s ≡ str_append r t
unfolding strip_suffix value_or
strip_suffix-some String.[] t r h = elim (chosen (String.[] == t) (some String.[]) none r h) [
  | inl (same, whole) ↦
      subst (λ x. String.[] ≡ str_append x t) (ap (value_or t) whole)
        ((string_eq.beq_decides String.[] t).0 same)
  | inr (other, nothing) ↦ ground arith
]
strip_suffix-some (String.◌∷◌ c s) t r h =
    elim (chosen (String.◌∷◌ c s == t) (some String.[]) (behind c (strip_suffix s t)) r h) [
      | inl (same, whole) ↦
          subst (λ x. String.◌∷◌ c s ≡ str_append x t) (ap (value_or t) whole)
            ((string_eq.beq_decides (String.◌∷◌ c s) t).0 same)
      | inr (other, rest) ↦
          let (q, inner, first) = behind-some c (strip_suffix s t) r rest in
          subst (λ x. String.◌∷◌ c s ≡ str_append x t) first
            (ap (String.◌∷◌ c) (strip_suffix-some s t q inner))
    ]

without-append :
    (n : ℕ) (s t : String) → Without n s → without n (str_append s t) ≡ str_append s (without n t)
unfolding without
without-append n String.[] t w = refl
without-append n (String.◌∷◌ c s) t w =
    let keep : (code c == n) ≡ false = ground (arith, w.0) in
    rw keep (ap (String.◌∷◌ c) (without-append n s t w.1))

-- A text has not two endings whose last characters differ.
strip_suffix-none :
    (s : String) (c d : Char) (t u : String)
    → last_code 0 (String.◌∷◌ c t) ≢ last_code 0 (String.◌∷◌ d u)
    → strip_suffix (str_append s (String.◌∷◌ c t)) (String.◌∷◌ d u) ≡ none
strip_suffix-none s c d t u differ =
    elim (Option-cases (strip_suffix (str_append s (String.◌∷◌ c t)) (String.◌∷◌ d u))) [
      | inl no_such ↦ no_such
      | inr (r, found) ↦ absurd (
          differ (
            sym (last_code-append 0 0 s c t)
            ∙ ap (last_code 0) (strip_suffix-some _ (String.◌∷◌ d u) r found)
            ∙ last_code-append 0 0 r d u))
    ]

-- A quote that the normalizer knows.
abbrev pub Known : String → Type 0
Known quote = (quote ≡ "USDT") ⊎ ((quote ≡ "USD") ⊎ (quote ≡ "BTC"))

clean :
    (s t : String)
    → Without 45 s
    → Without 47 s
    → without 45 t ≡ t
    → without 47 t ≡ t
    → without 47 (without 45 (str_append s (str_append "/" t))) ≡ str_append s t
unfolding without
clean s t a b d e =
    ap (without 47) (without-append 45 s (str_append "/" t) a)
    ∙ ap (λ u. without 47 (str_append s (str_append "/" u))) d
    ∙ without-append 47 s (str_append "/" t) b
    ∙ ap (str_append s) e

read : FeedNormalizer → String → String → Symbol
unfolding parse_symbol
read n base quote = parse_symbol n (str_append base (str_append "/" quote))

abbrev symbol : FeedNormalizer → String → String → Symbol
symbol n base quote = record { base = base; quote = quote; venue = n.venue }

module _ (n : FeedNormalizer) (base : String) (a : Without 45 base) (b : Without 47 base) where
  read-usdt : read n base "USDT" ≡ symbol n base "USDT"
  unfolding read without symbol_by_suffix
  read-usdt = rw (clean base "USDT" a b refl refl, strip_suffix-append base "USDT") refl

  read-usd : read n base "USD" ≡ symbol n base "USD"
  unfolding read without symbol_by_suffix last_code
  read-usd =
      rw
        (
          clean base "USD" a b refl refl,
          strip_suffix-none base "U" "U" "SD" "SDT" (λ e. ground arith),
          strip_suffix-append base "USD",
        )
        refl

  read-btc : read n base "BTC" ≡ symbol n base "BTC"
  unfolding read without symbol_by_suffix last_code
  read-btc =
      rw
        (
          clean base "BTC" a b refl refl,
          strip_suffix-none base "B" "U" "TC" "SDT" (λ e. ground arith),
          strip_suffix-none base "B" "U" "TC" "SD" (λ e. ground arith),
          strip_suffix-append base "BTC",
        )
        refl

  read-Known : (quote : String) → Known quote → read n base quote ≡ symbol n base quote
  read-Known quote (inl e) = rw e read-usdt
  read-Known quote (inr (inl e)) = rw e read-usd
  read-Known quote (inr (inr e)) = rw e read-btc

-- The text of a symbol, base and quote with a slash between, is read back by the normalizer of the
-- symbol's venue as that symbol, where the quote is USDT, USD or BTC and the base has no dash and no
-- slash.
pub parse_symbol-pair :
    (n : FeedNormalizer) (s : Symbol)
    → n.venue ≡ s.venue
    → Known s.quote
    → Without 45 s.base
    → Without 47 s.base
    → parse_symbol n (pair s) ≡ s
unfolding pair read
parse_symbol-pair n s v k a b =
    read-Known n s.base a b s.quote k
    ∙ ap (λ v. record { base = s.base; quote = s.quote; venue = v }) v
