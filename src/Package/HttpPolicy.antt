-- ===== src/Package/HttpPolicy.antt =====
-- `PackageHttpPolicy` of crates/dv-core/src/package.rs: its selection from the configuration and the
-- environment, and the delays between retries, in milliseconds. Of the bits of `flags` those that the
-- selection sets are kept, one test for each.
pub mod Bounds
mod Examples
use dv.Common.{
  ℕ, ◌+◌, ◌*◌, ◌^◌, ◌≤◌, ◌≡◌, min, Bool, true, false, ◌&&◌, ◌||◌, Option, none, some, List, [], ◌∷◌,
  ltb, leb, ◌==◌, if◌then◌else◌,
}
use dv.Common.Text.{Text, codes, parse_uint, text_eq, trim}

pub record PackageHttpPolicy : Type 0 where
  pub retry_delay_ms : ℕ
  pub max_retry_after_seconds : ℕ
  pub request_timeout_seconds : ℕ
  pub download_timeout_seconds : ℕ
  pub max_requests_per_source : ℕ
  pub max_tries : ℕ
  pub retries_http_429 : Bool
  pub observes_retry_after : Bool
  pub proxy_configured : Bool
  pub proxy_authenticated : Bool
  pub no_proxy_configured : Bool

abbrev pub default_http_policy : PackageHttpPolicy
default_http_policy = record {
  retry_delay_ms = 1000;
  max_retry_after_seconds = 3600;
  request_timeout_seconds = 100;
  download_timeout_seconds = 60;
  max_requests_per_source = 64;
  max_tries = 6;
  retries_http_429 = true;
  observes_retry_after = true;
  proxy_configured = false;
  proxy_authenticated = false;
  no_proxy_configured = false;
}

abbrev pub max_network_tries : ℕ
max_network_tries = 32

abbrev pub max_retry_delay_ms : ℕ
max_retry_delay_ms = 60000

abbrev pub max_retry_after : ℕ
max_retry_after = 86400

abbrev pub u32_max : ℕ
u32_max = 4294967295

-- of `ProxySettings` whether it has credentials and a bypass list
pub record ProxySettings : Type 0 where
  pub has_username : Bool
  pub has_no_proxy : Bool

-- `and_then(parse).filter(accepts).unwrap_or(default)`
abbrev pub accepted : (ℕ → Bool) → ℕ → Option ℕ → ℕ
accepted accepts default none = default
accepted accepts default (some n) = if accepts n then n else default

abbrev pub parsed : ℕ → Option Text → Option ℕ
parsed top none = none
parsed top (some value) = parse_uint top value

-- `parse::<bool>().ok().unwrap_or(true)`
abbrev pub enabled : Option Text → Bool
enabled none = true
enabled (some value) =
    if text_eq value (codes "true")
    then true
    else if text_eq value (codes "false")
    then false
    else true

abbrev pub with_proxy : Option ProxySettings → PackageHttpPolicy → PackageHttpPolicy
with_proxy none policy = policy
with_proxy (some proxy) policy = record policy {
  proxy_configured = true;
  proxy_authenticated = proxy.has_username;
  no_proxy_configured = proxy.has_no_proxy;
}

-- `effective_http_policy_with`, for the configured number of requests for each source
unfoldable pub effective_http_policy :
    Option Text → Option ProxySettings → (Text → Option Text) → PackageHttpPolicy
effective_http_policy requests proxy environment = with_proxy proxy (record default_http_policy {
  max_requests_per_source = accepted (λ n. ltb 0 n) 64 (parsed 65535 requests);
  max_tries =
      accepted (λ n. leb 1 n && leb n max_network_tries) 6
        (parsed 255 (environment (codes "NUGET_ENHANCED_MAX_NETWORK_TRY_COUNT")));
  retry_delay_ms =
      accepted (λ n. leb n max_retry_delay_ms) 1000
        (parsed u32_max (environment (codes "NUGET_ENHANCED_NETWORK_RETRY_DELAY_MILLISECONDS")));
  max_retry_after_seconds =
      accepted (λ n. leb n max_retry_after) 3600
        (parsed u32_max (environment (codes "NUGET_MAX_RETRY_AFTER_DELAY_SECONDS")));
  retries_http_429 = enabled (environment (codes "NUGET_RETRY_HTTP_429"));
  observes_retry_after = enabled (environment (codes "NUGET_OBSERVE_RETRY_AFTER"));
})

-- `effective_request_budget_with`; a number that is not positive or not an `i32` counts as none
abbrev pub max_download_workers : ℕ
max_download_workers = 24

abbrev trimmed : Option Text → Option Text
trimmed none = none
trimmed (some value) = some (trim value)

unfoldable pub effective_request_budget : (Text → Option Text) → ℕ
effective_request_budget environment = min max_download_workers (
    accepted (λ n. ltb 0 n) max_download_workers
      (parsed 2147483647 (trimmed (environment (codes "NUGET_CONCURRENCY_LIMIT")))))

-- `u32::saturating_mul`
abbrev pub saturating_mul : ℕ → ℕ → ℕ
saturating_mul a b = min (a * b) u32_max

-- `1u32.checked_shl(attempt.min(15))`, which is always in range
abbrev pub multiplier : ℕ → ℕ
multiplier attempt = 2 ^ min attempt 15

unfoldable pub exponential_retry_delay : PackageHttpPolicy → ℕ → ℕ
exponential_retry_delay policy attempt =
    min (saturating_mul policy.retry_delay_ms (multiplier attempt))
      (saturating_mul policy.max_retry_after_seconds 1000)

-- `retryable_status`, for the number of a status
unfoldable pub retryable_status : ℕ → PackageHttpPolicy → Bool
retryable_status status policy =
    leb 500 status && leb status 599 || (status == 408 || status == 429) && policy.retries_http_429

-- `parse_retry_after`; the time from now to an HTTP date is a parameter
abbrev or_date : Option ℕ → Option ℕ → Option ℕ
or_date (some seconds) date = some (seconds * 1000)
or_date none date = date

abbrev pub parse_retry_after : (Text → Option ℕ) → Text → Option ℕ
parse_retry_after until_date value =
    or_date (parse_uint 18446744073709551615 value) (until_date value)

abbrev pub directed : (Text → Option ℕ) → Option Text → Option ℕ
directed until_date none = none
directed until_date (some value) = parse_retry_after until_date value

abbrev pub delay_of : PackageHttpPolicy → ℕ → Option ℕ → ℕ
delay_of policy attempt none = exponential_retry_delay policy attempt
delay_of policy attempt (some delay) = min delay (policy.max_retry_after_seconds * 1000)

-- `response_retry_delay`, for the value of the `Retry-After` header
unfoldable pub response_retry_delay : (Text → Option ℕ) → Option Text → PackageHttpPolicy → ℕ → ℕ
unfolding exponential_retry_delay
response_retry_delay until_date header policy attempt =
    if policy.observes_retry_after
    then delay_of policy attempt (directed until_date header)
    else exponential_retry_delay policy attempt
