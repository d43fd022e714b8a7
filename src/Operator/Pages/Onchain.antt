-- ===== src/Operator/Pages/Onchain.antt =====
-- The order of the payments on chain that the dashboard lists.
use mathlib.Core.List.{Perm}
use puncture.Common.{List}
use puncture.Common.Sorting.{IsDescending}
use puncture.Common.Sorting.Reverse.{reverse-sort_by_key-IsDescending, reverse-sort_by_key-perm}
use puncture.Operator.Pages.{StoredPayment, onchain_payments, height_of, onchain_page}

-- The page lists the payments on chain of the node's store, each as often as it stands there, by
-- falling height, where one that is not confirmed counts as the greatest height.
pub onchain_page_newest_first :
    (payments : List StoredPayment)
    → Perm (onchain_page payments) (onchain_payments payments)
      × IsDescending height_of (onchain_page payments)
unfolding onchain_page
onchain_page_newest_first payments = (
  reverse-sort_by_key-perm height_of (onchain_payments payments),
  reverse-sort_by_key-IsDescending height_of (onchain_payments payments),
)
