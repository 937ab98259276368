-- ===== src/Feed/Tests.antt =====
-- A symbol that the normalizer reads, and the theorem about it.
use atomic_mesh.Base.{◌≡◌, refl, inr, arith, string_eq}
use atomic_mesh.Core.Types.{Symbol, bybit, pair}
use atomic_mesh.Feed.Normalizer.{
  FeedNormalizer, parse_symbol, without, strip_suffix, symbol_by_suffix,
}
use atomic_mesh.Feed.Normalizer.RoundTrip.{parse_symbol-pair}

abbrev normalizer : FeedNormalizer
normalizer = record { venue = bybit; price_decimals = 2; qty_decimals = 8 }

abbrev ether : Symbol
ether = record { base = "ETH"; quote = "BTC"; venue = bybit }

with_a_dash : parse_symbol normalizer "ETH-BTC" ≡ ether
unfolding parse_symbol without strip_suffix symbol_by_suffix
with_a_dash = refl

unknown_quote : (parse_symbol normalizer "BTC/EUR").quote ≡ "UNKNOWN"
unfolding parse_symbol without strip_suffix symbol_by_suffix
unknown_quote = refl

parse_symbol-pair_example : parse_symbol normalizer (pair ether) ≡ ether
parse_symbol-pair_example =
    parse_symbol-pair normalizer ether refl (inr (inr refl))
      ((λ e. ground arith), ((λ e. ground arith), ((λ e. ground arith), tt)))
      ((λ e. ground arith), ((λ e. ground arith), ((λ e. ground arith), tt)))
