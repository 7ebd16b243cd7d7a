-- ===== src/Sdk/Examples.antt =====
-- Runs of the models of crates/dv-core/src/sdk.rs on concrete inputs.
use dv.Common.{ℕ, ◌≡◌, ◌&&◌, refl, none, some, List, [], ◌∷◌, true}
use dv.Common.Select.{IsBest, kept}
use dv.Common.Result.{ok}
use dv.Sdk.Version.{SdkVersion, cmp, is_prerelease, same_feature_band, feature_band}
use dv.Sdk.Selection.{
  SdkInstallation, patch, feature, offered, enumerate, select_from_root, select_sdk,
}
use dv.Sdk.Selection.Choice.{wanted, preferred, select_from_root-Best}
use dv.Common.Text.{codes}
use dv.Sdk.Comments.{Bytes, strip_json_comments}
use dv.Sdk.Comments.Laws.{Blanked, strip-Blanked}

abbrev commented : Bytes
commented = codes "[\"//\" /*x*/, 1] // y"

abbrev bare : Bytes
bare = codes "[\"//\"      , 1]     "

strip-Blanked_example : Blanked commented bare
unfolding strip_json_comments
strip-Blanked_example = strip-Blanked commented bare refl

strip_json_comments_open : strip_json_comments (codes "1 /* 2") ≡ none
unfolding strip_json_comments
strip_json_comments_open = refl

-- `8.0.n`
abbrev sdk : ℕ → SdkVersion
sdk n = record {
  text = codes "8.0";
  major = 8;
  minor = 0;
  patch = n;
  prerelease_start = 65535;
  prerelease_end = 65535;
}

abbrev found : List SdkInstallation
found =
    record { version = sdk 204; root_index = 0 }
    ∷ record { version = sdk 301; root_index = 0 }
    ∷ record { version = sdk 307; root_index = 0 }
    ∷ record { version = sdk 203; root_index = 1 }
    ∷ []

-- the highest patch of the nearest feature band, in the first root that has one
nearest_feature : select_sdk found 2 (some (sdk 205)) (some feature) none ≡ ok 2
unfolding select_sdk select_from_root cmp kept is_prerelease feature_band
nearest_feature = refl

patch_in_band : select_sdk found 2 (some (sdk 203)) none none ≡ ok 0
unfolding select_sdk select_from_root cmp kept is_prerelease feature_band same_feature_band
patch_in_band = refl

select_from_root-Best_example :
    IsBest
      (λ c. offered 0 true c && wanted (some (sdk 203)) patch c)
      (preferred (some (sdk 203)) patch)
      (enumerate 0 found)
      (select_from_root found 0 (some (sdk 203)) patch true)
select_from_root-Best_example = select_from_root-Best found 0 (some (sdk 203)) patch true
