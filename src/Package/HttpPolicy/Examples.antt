-- ===== src/Package/HttpPolicy/Examples.antt =====
-- HTTP policies on concrete inputs (crates/dv-core/src/package.rs).
use dv.Common.{ℕ, ◌≤◌, ◌*◌, ◌≡◌, refl, Option, none, some, if◌then◌else◌}
use dv.Common.Text.{Text, codes, text_eq, parse_uint}
use dv.Package.HttpPolicy.{effective_http_policy, response_retry_delay}
use dv.Package.HttpPolicy.Bounds.{Limited, effective_http_policy-Limited, retry_delay_within_day}

-- One variable is set, and no date is read.
abbrev environment : Text → Option Text
environment name =
    if text_eq name (codes "NUGET_MAX_RETRY_AFTER_DELAY_SECONDS")
    then some (codes "90000")
    else none

abbrev no_date : Text → Option ℕ
no_date value = none

capped :
    response_retry_delay no_date
      (some (codes "7200"))
      (effective_http_policy none none environment)
      3
    ≡ 3600000
unfolding response_retry_delay effective_http_policy text_eq parse_uint
capped = refl

doubled : response_retry_delay no_date none (effective_http_policy none none environment) 3 ≡ 8000
unfolding response_retry_delay effective_http_policy text_eq parse_uint
doubled = refl

effective_http_policy-Limited_example :
    Limited (effective_http_policy (some (codes "0")) none environment)
effective_http_policy-Limited_example =
    effective_http_policy-Limited (some (codes "0")) none environment

retry_delay_within_day_example :
    (response_retry_delay no_date
        (some (codes "7200"))
        (effective_http_policy none none environment)
        3
      ≤ (effective_http_policy none none environment).max_retry_after_seconds * 1000)
    × (response_retry_delay no_date
          (some (codes "7200"))
          (effective_http_policy none none environment)
          3
        ≤ 86400000)
retry_delay_within_day_example =
    retry_delay_within_day no_date (some (codes "7200")) none none environment 3
