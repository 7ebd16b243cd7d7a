-- ===== src/Sdk/Version/Order.antt =====
-- The order of `SdkVersion` (`cmp` and `compare_prerelease` of crates/dv-core/src/sdk.rs).
use dv.Common.{compare, all}
use dv.Common.Order.{
  IsOrder, compare-IsOrder, then_with-IsOrder, key-IsOrder, graded-IsOrder, list_cmp-IsOrder,
  list_cmp, then_with, none_last-IsOrder,
}
use dv.Common.Text.{Text, is_digit, len, text_cmp, text_cmp-IsOrder, split}
use dv.Sdk.Version.{SdkVersion, identifier_cmp, compare_prerelease, prerelease, cmp}

identifier_cmp-IsOrder : IsOrder identifier_cmp
unfolding identifier_cmp
identifier_cmp-IsOrder =
    graded-IsOrder (all is_digit)
      (λ (l r : Text). then_with (compare (len l) (len r)) (text_cmp l r)) text_cmp
      (then_with-IsOrder _ _ (key-IsOrder len compare compare-IsOrder) text_cmp-IsOrder)
      text_cmp-IsOrder

identifiers_cmp-IsOrder : IsOrder (λ l r. list_cmp identifier_cmp (split b'.' l) (split b'.' r))
identifiers_cmp-IsOrder =
    key-IsOrder (split b'.') (list_cmp identifier_cmp)
      (list_cmp-IsOrder identifier_cmp identifier_cmp-IsOrder)

compare_prerelease-IsOrder : IsOrder compare_prerelease
unfolding compare_prerelease
compare_prerelease-IsOrder =
    none_last-IsOrder (λ l r. list_cmp identifier_cmp (split b'.' l) (split b'.' r))
      identifiers_cmp-IsOrder

-- The comparison of SDK versions is a total preorder: swapping the two sides swaps the answer,
-- versions that compare equal compare alike with every third, and strictly less is transitive.
pub sdk_cmp-IsOrder : IsOrder cmp
unfolding cmp
sdk_cmp-IsOrder =
    then_with-IsOrder _ _ (key-IsOrder (λ (v : SdkVersion). v.major) compare compare-IsOrder) (
      then_with-IsOrder _ _ (key-IsOrder (λ (v : SdkVersion). v.minor) compare compare-IsOrder) (
        then_with-IsOrder _ _ (key-IsOrder (λ (v : SdkVersion). v.patch) compare compare-IsOrder)
          (key-IsOrder prerelease compare_prerelease compare_prerelease-IsOrder)))
