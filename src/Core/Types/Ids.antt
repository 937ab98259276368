-- ===== src/Core/Types/Ids.antt =====
-- Order ids: `format!("{}-{}", venue, local_id)` in crates/atomic-core/src/types.rs.
use Prim.Native.Char.{code}
use atomic_mesh.Base.{ℕ, ◌^◌, ◌<◌, ◌≡◌, refl, sym, ◌∙◌, ap, String, if◌then◌else◌, ◌==◌, nat_eq}
use atomic_mesh.Base.Decimal.{show_u64, show_u64-injective}
use atomic_mesh.Core.Types.{
  Venue, binance, bybit, okx, deribit, coinbase, kraken, dydx, hyperliquid, simulated,
  display_venue, new_order_id,
}

-- What stands behind the first dash.
after_dash : String → String
after_dash String.[] = String.[]
after_dash (String.◌∷◌ c s) = if code c == b'-' then s else after_dash s

after_dash-new_order_id : (v : Venue) (n : ℕ) → after_dash (new_order_id v n) ≡ show_u64 n
unfolding after_dash new_order_id display_venue
after_dash-new_order_id binance n = refl
after_dash-new_order_id bybit n = refl
after_dash-new_order_id okx n = refl
after_dash-new_order_id deribit n = refl
after_dash-new_order_id coinbase n = refl
after_dash-new_order_id kraken n = refl
after_dash-new_order_id dydx n = refl
after_dash-new_order_id hyperliquid n = refl
after_dash-new_order_id simulated n = refl

-- Two ids with different counters differ, whatever the venues.
pub new_order_id-injective :
    (v w : Venue) (m n : ℕ) → m < 2 ^ 64 → n < 2 ^ 64 → new_order_id v m ≡ new_order_id w n → m ≡ n
new_order_id-injective v w m n hm hn e =
    show_u64-injective m n hm hn
      (sym (after_dash-new_order_id v m) ∙ ap after_dash e ∙ after_dash-new_order_id w n)
