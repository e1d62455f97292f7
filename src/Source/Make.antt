-- ===== src/Source/Make.antt =====
-- atolla_source_make and atolla_source_free of src/atolla/source.cpp.
pub mod Connect
pub mod Silent
use mathlib.Core.Option.{get_or}
use atolla.Prelude.{
  ℕ, Bool, Option, none, some, ltb, u16, if◌then◌else◌, Result, ok, assert, ◌>>=◌, ◌>>◌,
}
use atolla.Machine.{Machine}
use atolla.World.{World, time_now}
use atolla.Udp.Results.{UdpSocket, is_ok}
use atolla.Udp.Sockets.{udp_socket_init, udp_socket_set_receiver, udp_socket_free}
use atolla.Msg.Builder.{msg_builder_init}
use atolla.Source.State.{
  Source, SourceState, SourceSpec, source_private_make, unresolved_text, not_bound_text,
}
use atolla.Source.Update.{source_fail, source_send_borrow, source_await_make_completion}

module _ (m : Machine) where
  -- From the socket on to the first borrow.
  unfoldable pub connect_source : Source → SourceSpec → World → Result (Source × World)
  unfolding source_fail
  connect_source source spec w = do
    (result, socket, w1) ← udp_socket_init (some source.sock) w
    let s = record source { sock = get_or socket source.sock }
    if is_ok result.code
        then (do
          (found, w2) ←
              udp_socket_set_receiver (some s.sock) spec.sink_hostname (u16 spec.sink_port) w1
          if is_ok found.code
              then (let (t, w3) = time_now w2 in
                  source_send_borrow m (record s { first_borrow_time = t }) w3)
              else ok (source_fail (record s { state = SourceState.error }) unresolved_text, w2))
        else ok (source_fail s not_bound_text, w1)

  -- `fresh` is what `malloc` left in the object, and `fuel` is for the loop that awaits completion.
  unfoldable pub atolla_source_make : ℕ → Source → SourceSpec → World → Result (Source × World)
  atolla_source_make fuel fresh spec w = do
    assert (ltb spec.sink_port 65536)
    b ← msg_builder_init m
    (source, w1) ← connect_source (record (source_private_make fresh spec) { builder = b }) spec w
    if spec.async_make then ok (source, w1) else source_await_make_completion m fuel source w1

-- The builder's buffer is not freed, and neither is the result of freeing the socket looked at.
unfoldable pub atolla_source_free : Source → World → Result (Source × World)
atolla_source_free source w = do
  (_, socket, w1) ← udp_socket_free (some source.sock) w
  ok (record source { sock = get_or socket source.sock }, w1)
