-- ===== src/FrameworkReference/Order.antt =====
-- The order of `RuntimeVersion` and of its bands (crates/dv-core/src/framework_reference.rs).
use dv.Common.{compare, all}
use dv.Common.Order.{
  IsOrder, compare-IsOrder, then_with-IsOrder, key-IsOrder, graded-IsOrder, list_cmp-IsOrder,
  list_cmp, then_with, none_last-IsOrder,
}
use dv.Common.Text.{Text, is_digit, len, text_cmp, text_cmp-IsOrder, split}
use dv.FrameworkReference.{RuntimeVersion, identifier_cmp, compare_prerelease, cmp, Band, band_cmp}

identifier_cmp-IsOrder : IsOrder identifier_cmp
unfolding identifier_cmp
identifier_cmp-IsOrder =
    graded-IsOrder (all is_digit)
      (λ (l r : Text). then_with (compare (len l) (len r)) (text_cmp l r)) text_cmp
      (then_with-IsOrder _ _ (key-IsOrder len compare compare-IsOrder) text_cmp-IsOrder)
      text_cmp-IsOrder

compare_prerelease-IsOrder : IsOrder compare_prerelease
unfolding compare_prerelease
compare_prerelease-IsOrder =
    none_last-IsOrder (λ l r. list_cmp identifier_cmp (split b'.' l) (split b'.' r))
      (key-IsOrder (split b'.') (list_cmp identifier_cmp)
        (list_cmp-IsOrder identifier_cmp identifier_cmp-IsOrder))

pub runtime_cmp-IsOrder : IsOrder cmp
unfolding cmp
runtime_cmp-IsOrder =
    then_with-IsOrder _ _ (key-IsOrder (λ (v : RuntimeVersion). v.major) compare compare-IsOrder) (
      then_with-IsOrder _ _ (key-IsOrder (λ (v : RuntimeVersion). v.minor) compare compare-IsOrder)
        (then_with-IsOrder _ _
          (key-IsOrder (λ (v : RuntimeVersion). v.patch) compare compare-IsOrder)
          (key-IsOrder (λ (v : RuntimeVersion). v.prerelease) compare_prerelease
            compare_prerelease-IsOrder)))

pub band_cmp-IsOrder : IsOrder band_cmp
band_cmp-IsOrder =
    then_with-IsOrder _ _ (key-IsOrder (λ (b : Band). b.0) compare compare-IsOrder)
      (key-IsOrder (λ (b : Band). b.1) compare compare-IsOrder)
