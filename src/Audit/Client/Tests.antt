-- ===== src/Audit/Client/Tests.antt =====
-- Runs of the client: retries, and a full queue.
use pty_mcp.Base.{ℕ, ◌≡◌, refl, none, some, [], ltb, if◌then◌else◌}
use pty_mcp.Audit.Client.{
  Exchange, answered, http_status, post, is_client_error, retry_delays, retry_from, post_with_retry,
  send_cmd, error_of,
}
use pty_mcp.Audit.Client.Retry.{IsRetried, post_with_retry-IsRetried}

-- a server that fails at first, and then refuses
abbrev net : ℕ → Exchange
net i = if ltb i 2 then answered 500 else answered 403

three_posts :
    post_with_retry net ≡ record { result = some (http_status 403); attempts = 3; slept = 3000 }
unfolding post_with_retry retry_from post is_client_error
three_posts = refl

post_with_retry-IsRetried_example : IsRetried net 0 retry_delays none (post_with_retry net)
post_with_retry-IsRetried_example = post_with_retry-IsRetried net

in_strict_mode :
    error_of (
      send_cmd
        (record { url = "http://localhost"; user = ""; token = "t"; mode = "strict" })
        (λ c. c)
        (λ c. some [])
        (λ bytes. net)
        "ls")
    ≡ some (http_status 403)
unfolding send_cmd error_of post_with_retry retry_from post is_client_error
in_strict_mode = refl
