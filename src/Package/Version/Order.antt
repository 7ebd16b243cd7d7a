-- ===== src/Package/Version/Order.antt =====
-- The order of `PackageVersion` (`cmp` and `compare_prerelease` of crates/dv-core/src/package.rs).
use dv.Common.{compare, all}
use dv.Common.Order.{
  IsOrder, compare-IsOrder, then_with-IsOrder, key-IsOrder, graded-IsOrder, list_cmp-IsOrder,
  list_cmp, then_with, none_last-IsOrder,
}
use dv.Common.Text.{Text, is_digit, len, text_cmp, split, text_cmp-IsOrder}
use dv.Package.Version.{
  Numbers, PackageVersion, numbers_cmp, trim_zeros, part_cmp, prerelease_cmp, prerelease, cmp,
}

numeric_cmp-IsOrder : IsOrder (λ (l r : Text).
    then_with
      (compare (len (trim_zeros l)) (len (trim_zeros r)))
      (text_cmp (trim_zeros l) (trim_zeros r)))
numeric_cmp-IsOrder =
    then_with-IsOrder (λ l r. compare (len (trim_zeros l)) (len (trim_zeros r)))
      (λ l r. text_cmp (trim_zeros l) (trim_zeros r))
      (key-IsOrder (λ l. len (trim_zeros l)) compare compare-IsOrder)
      (key-IsOrder trim_zeros text_cmp text_cmp-IsOrder)

part_cmp-IsOrder : IsOrder part_cmp
unfolding part_cmp
part_cmp-IsOrder = graded-IsOrder (all is_digit) _ text_cmp numeric_cmp-IsOrder text_cmp-IsOrder

parts_cmp-IsOrder : IsOrder (λ l r. list_cmp part_cmp (split b'.' l) (split b'.' r))
parts_cmp-IsOrder =
    key-IsOrder (split b'.') (list_cmp part_cmp) (list_cmp-IsOrder part_cmp part_cmp-IsOrder)

prerelease_cmp-IsOrder : IsOrder prerelease_cmp
unfolding prerelease_cmp
prerelease_cmp-IsOrder =
    none_last-IsOrder (λ l r. list_cmp part_cmp (split b'.' l) (split b'.' r)) parts_cmp-IsOrder

numbers_cmp-IsOrder : IsOrder numbers_cmp
unfolding numbers_cmp
numbers_cmp-IsOrder =
    then_with-IsOrder _ _ (key-IsOrder (λ (n : Numbers). n.major) compare compare-IsOrder) (
      then_with-IsOrder _ _ (key-IsOrder (λ (n : Numbers). n.minor) compare compare-IsOrder) (
        then_with-IsOrder _ _ (key-IsOrder (λ (n : Numbers). n.patch) compare compare-IsOrder)
          (key-IsOrder (λ (n : Numbers). n.revision) compare compare-IsOrder)))

-- The comparison of package versions is a total preorder: swapping the two sides swaps the answer,
-- versions that compare equal compare alike with every third, and strictly less is transitive.
pub cmp-IsOrder : IsOrder cmp
unfolding cmp
cmp-IsOrder =
    then_with-IsOrder _ _
      (key-IsOrder (λ (v : PackageVersion). v.numbers) numbers_cmp numbers_cmp-IsOrder)
      (key-IsOrder prerelease prerelease_cmp prerelease_cmp-IsOrder)
