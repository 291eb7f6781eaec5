-- ===== src/Controller/Finding/Tests.antt =====
-- handleFindOrders on two orders, and the limits that it lets through.
use mogtrade_engine.Base.{◌≡◌, refl, some}
use mogtrade_engine.Base.Int.{pos, negsuc}
use mogtrade_engine.Database.TextOrder.{by_codes}
use mogtrade_engine.Controller.Reloading.Tests.{two_orders, two_orders-Distinct}
use mogtrade_engine.Controller.Finding.{
  int32, page_limit, Listed, handle_find_orders, handle_find_orders-Listed,
}

-- One less than the least 32-bit number is the greatest.
limit_wraps : int32 (page_limit (negsuc 2147483648)) ≡ pos 2147483647
unfolding int32
limit_wraps = refl

limit_cut : int32 (page_limit (pos 5000)) ≡ pos 100
unfolding int32
limit_cut = refl

handle_find_orders-Listed_example :
    Listed by_codes "0"
      (pos 1)
      two_orders
      (handle_find_orders by_codes (λ text. pos 1) "0" (some "1") two_orders)
handle_find_orders-Listed_example =
    handle_find_orders-Listed by_codes (λ text. pos 1) "0" (some "1") two_orders two_orders-Distinct
