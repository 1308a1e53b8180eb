-- ===== src/Ssh/Tests.antt =====
-- The theorems on the SSH clients at one host.
use multi_terminal.Base.{◌≡◌, none, some, []}
use multi_terminal.Ssh.{client, get_or_create_from, close_client, load_client}
use multi_terminal.Ssh.Clients.{connected, concurrent_create_leaks}

concurrent_create_leaks_example :
    let first = get_or_create_from none [] "h" (some 1) in
    let second = get_or_create_from none first.0 "h" (some 2) in
    let closed = close_client second.0 "h" in
    (first.1 ≡ client (connected 1))
    × (second.1 ≡ client (connected 2))
    × (closed.1 ≡ some 2)
    × (load_client "h" closed.0 ≡ none)
concurrent_create_leaks_example = concurrent_create_leaks [] "h" 1 2
