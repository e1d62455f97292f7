-- ===== src/Udp/Endpoint.antt =====
-- udp_endpoint_equal of src/udp_socket/udp_socket_bsdlike.cpp.
use atolla.Prelude.{ℕ, Bool, true, false, ◌&&◌, List, [], ◌∷◌, ◌==◌, if◌then◌else◌}
use atolla.World.{UdpEndpoint}

-- 0 == memcmp of the first bytes of two objects that have as many
unfoldable pub same_bytes : List ℕ → List ℕ → ℕ → Bool
same_bytes a b ℕ.zero = true
same_bytes [] b (ℕ.suc n) = true
same_bytes (x ∷ a) [] (ℕ.suc n) = true
same_bytes (x ∷ a) (y ∷ b) (ℕ.suc n) = x == y && same_bytes a b n

unfoldable pub udp_endpoint_equal : UdpEndpoint → UdpEndpoint → Bool
unfolding same_bytes
udp_endpoint_equal a b =
    if a.addr_len == b.addr_len then same_bytes a.addr b.addr a.addr_len else false
