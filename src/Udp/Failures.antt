-- ===== src/Udp/Failures.antt =====
-- The results that udp_socket_receive has for an `errno`, of src/udp_socket/udp_socket_bsdlike.cpp.
use atolla.Prelude.{◌≡◌, refl, false, ok}
use atolla.World.{Errno}
use atolla.Udp.Results.{UdpSocketResult, is_ok, make_err_result}
use atolla.Udp.Transfer.{receive_error}

-- Each of them is a failure.
pub receive_error_lem :
    (e : Errno) → (r : UdpSocketResult) × (receive_error e ≡ ok r) × (is_ok r.code ≡ false)
unfolding receive_error make_err_result
receive_error_lem Errno.eagain = (_, refl, refl)
receive_error_lem Errno.ewouldblock = (_, refl, refl)
receive_error_lem Errno.eacces = (_, refl, refl)
receive_error_lem Errno.edestaddrreq = (_, refl, refl)
receive_error_lem Errno.emsgsize = (_, refl, refl)
receive_error_lem Errno.other_errno = (_, refl, refl)
