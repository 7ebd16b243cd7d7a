-- ===== src/Package/HttpPolicy/Bounds.antt =====
-- The limits that the HTTP policy of crates/dv-core/src/package.rs keeps.
use dv.Common.{
  ℕ, ◌*◌, ◌≤◌, ◌≡◌, refl, Bool, true, ◌&&◌, Option, none, some, ltb, leb, if_either, arith,
}
use dv.Common.Text.{Text, codes, parse_uint_bound}
use dv.Package.HttpPolicy.{
  PackageHttpPolicy, ProxySettings, accepted, parsed, with_proxy, effective_http_policy,
  exponential_retry_delay, response_retry_delay, u32_max, default_http_policy, max_network_tries,
  max_retry_delay_ms, max_retry_after, enabled, delay_of, directed,
}

-- The limits of a policy.
pub record Limited (p : PackageHttpPolicy) : Type 0 where
  tries_least : 1 ≤ p.max_tries
  tries_most : p.max_tries ≤ 32
  delay_most : p.retry_delay_ms ≤ 60000
  retry_after_most : p.max_retry_after_seconds ≤ 86400
  requests_least : 1 ≤ p.max_requests_per_source
  requests_most : p.max_requests_per_source ≤ 65535

accepted_holds :
    (P : ℕ → Type 0) (accepts : ℕ → Bool) (default : ℕ) (o : Option ℕ)
    → P default
    → ((n : ℕ) → accepts n ≡ true → o ≡ some n → P n)
    → P (accepted accepts default o)
accepted_holds P accepts default none h k = h
accepted_holds P accepts default (some n) h k =
    if_either P (accepts n) n default (λ e. k n e refl) (λ _. h)

parsed_bound : (top n : ℕ) (value : Option Text) → parsed top value ≡ some n → n ≤ top
parsed_bound top n none e = cc
parsed_bound top n (some value) e = parse_uint_bound top value n e

with_proxy-Limited :
    (proxy : Option ProxySettings) (p : PackageHttpPolicy)
    → Limited p
    → Limited (with_proxy proxy p)
with_proxy-Limited none p h = h
with_proxy-Limited (some proxy) p h = record {
  tries_least = h.tries_least;
  tries_most = h.tries_most;
  delay_most = h.delay_most;
  retry_after_most = h.retry_after_most;
  requests_least = h.requests_least;
  requests_most = h.requests_most;
}

-- Whatever the configuration and the environment say: a policy makes between 1 and 32 tries, waits
-- 60 seconds at most before it doubles, follows a server for a day at most, and allows between 1 and
-- 65535 requests for each source.
pub effective_http_policy-Limited :
    (requests : Option Text) (proxy : Option ProxySettings) (environment : Text → Option Text)
    → Limited (effective_http_policy requests proxy environment)
unfolding effective_http_policy
effective_http_policy-Limited requests proxy environment =
    let tries = parsed 255 (environment (codes "NUGET_ENHANCED_MAX_NETWORK_TRY_COUNT")) in
    let delay =
      parsed u32_max (environment (codes "NUGET_ENHANCED_NETWORK_RETRY_DELAY_MILLISECONDS")) in
    let after = parsed u32_max (environment (codes "NUGET_MAX_RETRY_AFTER_DELAY_SECONDS")) in
    with_proxy-Limited proxy
      (record default_http_policy {
        max_requests_per_source = accepted (λ n. ltb 0 n) 64 (parsed 65535 requests);
        max_tries = accepted (λ n. leb 1 n && leb n max_network_tries) 6 tries;
        retry_delay_ms = accepted (λ n. leb n max_retry_delay_ms) 1000 delay;
        max_retry_after_seconds = accepted (λ n. leb n max_retry_after) 3600 after;
        retries_http_429 = enabled (environment (codes "NUGET_RETRY_HTTP_429"));
        observes_retry_after = enabled (environment (codes "NUGET_OBSERVE_RETRY_AFTER"));
      })
      (record {
        tries_least =
            accepted_holds (λ n. 1 ≤ n) (λ n. leb 1 n && leb n 32) 6 tries (omega arith)
              (λ n e _. ground (arith, e));
        tries_most =
            accepted_holds (λ n. n ≤ 32) (λ n. leb 1 n && leb n 32) 6 tries (omega arith)
              (λ n e _. ground (arith, e));
        delay_most =
            accepted_holds (λ n. n ≤ 60000) (λ n. leb n 60000) 1000 delay (omega arith)
              (λ n e _. ground (arith, e));
        retry_after_most =
            accepted_holds (λ n. n ≤ 86400) (λ n. leb n 86400) 3600 after (omega arith)
              (λ n e _. ground (arith, e));
        requests_least =
            accepted_holds (λ n. 1 ≤ n) (λ n. ltb 0 n) 64 (parsed 65535 requests) (omega arith)
              (λ n e _. ground (arith, e));
        requests_most =
            accepted_holds (λ n. n ≤ 65535) (λ n. ltb 0 n) 64 (parsed 65535 requests) (omega arith)
              (λ n _ e. parsed_bound 65535 n requests e);
      })

exponential_bound :
    (p : PackageHttpPolicy) (attempt : ℕ)
    → exponential_retry_delay p attempt ≤ p.max_retry_after_seconds * 1000
unfolding exponential_retry_delay
exponential_bound p attempt = omega arith

delay_bound :
    (p : PackageHttpPolicy) (attempt : ℕ) (o : Option ℕ)
    → delay_of p attempt o ≤ p.max_retry_after_seconds * 1000
delay_bound p attempt none = exponential_bound p attempt
delay_bound p attempt (some delay) = omega arith

-- No answer of a server and no number of attempts makes the wait longer than the policy's limit, and
-- that is a day at most under every configuration and environment.
pub retry_delay_within_day :
    (until_date : Text → Option ℕ) (header requests : Option Text) (proxy : Option ProxySettings)
    (environment : Text → Option Text) (attempt : ℕ)
    → (response_retry_delay until_date header
          (effective_http_policy requests proxy environment)
          attempt
        ≤ (effective_http_policy requests proxy environment).max_retry_after_seconds * 1000)
      × (response_retry_delay until_date header
            (effective_http_policy requests proxy environment)
            attempt
          ≤ 86400000)
unfolding response_retry_delay
retry_delay_within_day until_date header requests proxy environment attempt =
    let p = effective_http_policy requests proxy environment in
    let h = effective_http_policy-Limited requests proxy environment in
    let within =
      if_either (λ n. n ≤ p.max_retry_after_seconds * 1000) p.observes_retry_after
        (delay_of p attempt (directed until_date header)) (exponential_retry_delay p attempt)
        (λ _. delay_bound p attempt (directed until_date header))
        (λ _. exponential_bound p attempt) in
    (within, omega (arith, within, h.retry_after_most))
