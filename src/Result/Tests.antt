-- ===== src/Result/Tests.antt =====
-- Results and waits at concrete inputs.
use gha_mcp_host.Prelude.{◌≡◌, refl, true, false, none, some}
use gha_mcp_host.Result.{
  retry, reexecute_unsafe, ask_user, includes_code, on_error_for, is_retry, tail, ok, fail, clamp,
  make_poll_clock, next,
}

fail_runs :
    ((fail "github_5xx" none none).retryable ≡ true)
    × ((fail "lost" none none).on_error ≡ some reexecute_unsafe)
    × ((fail "github_5xx" (some ask_user) none).retryable ≡ false)
    × ((ok (some retry) none).retryable ≡ false)
unfolding fail ok tail is_retry on_error_for includes_code
fail_runs = (refl, refl, refl, refl)

-- 250 milliseconds first, then 500.
second_wait : (next (next (make_poll_clock 250 5_000)).0).1 ≡ 500
unfolding make_poll_clock next clamp
second_wait = refl
