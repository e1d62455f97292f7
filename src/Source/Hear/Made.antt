-- ===== src/Source/Hear/Made.antt =====
-- A source that is made in the blocking way, whatever answers come.
use atolla.Prelude.{
  ℕ, ◌+◌, ◌≤◌, ◌<◌, ◌≡◌, refl, ◌∙◌, ap, none, some, false, List, ◌∷◌, length, u32, arith,
}
use atolla.Machine.{Machine, HasMemory}
use atolla.World.{World, UdpEndpoint, AddrInfo, IsDatagramService}
use atolla.Udp.Sockets.Receiver.{first_reachable}
use atolla.Sink.Send.Replies.{after_send}
use atolla.Source.State.{Source, SourceSpec, source_private_make}
use atolla.Source.Update.{source_await_make_completion}
use atolla.Source.Update.Await.{IsLate}
use atolla.Source.Make.{atolla_source_make}
use atolla.Source.Make.Connect.{IsFound, IsBound, first_borrow, make_connects}
use atolla.Source.Make.Silent.{IsLateFrom, if_false}
use atolla.Source.Hear.{IsWorking}
use atolla.Source.Hear.Turns.{
  GoesOn, GoesOn-trans, GoesOn-service, after_send-GoesOn, after_send-counts,
}
use atolla.Source.Hear.Gives.{answers_on}
use atolla.Source.Hear.Updates.{IsAnswer}
use atolla.Source.Hear.Await.{Ends, await_rounds}

-- What the first BORROW message needs, and the times by which the wait is over: the readings of number d and the
-- next.
pub record IsMakeable (m : Machine) (fuel : ℕ) (fresh : Source) (spec : SourceSpec) (w : World)
    : Type 0 where
  pub h : ℕ
  pub info : AddrInfo
  pub infos : List AddrInfo
  pub endpoint : UdpEndpoint
  pub d : ℕ
  pub mem : HasMemory m
  pub port : spec.sink_port < 65536
  pub blocking : spec.async_make ≡ false
  pub free : IsBound h w
  pub host : IsFound (w.kernel.calls + 1 + 1 + 1 + 1) w info infos
  pub reached :
      first_reachable w.kernel.failure (w.kernel.calls + 1 + 1 + 1 + 1 + 1) (info ∷ infos)
      ≡ some endpoint
  pub service : IsDatagramService w
  pub answers : (i : ℕ) → IsAnswer (w.incoming i)
  pub buffer : length fresh.recv_buf ≡ 32
  pub some_time : 0 < u32 spec.frame_duration_ms
  pub late : IsLateFrom w (source_private_make fresh spec).disconnect_timeout_ms d
  pub late_next : IsLateFrom w (source_private_make fresh spec).disconnect_timeout_ms (d + 1)
  pub ahead : w.clock_calls + 2 ≤ d
  pub enough : d < w.clock_calls + 2 + fuel

pub make-Ends :
    (m : Machine) (fuel : ℕ) (fresh : Source) (spec : SourceSpec) (w : World)
    → IsMakeable m fuel fresh spec w
    → Ends w (atolla_source_make m fuel fresh spec w)
make-Ends m fuel fresh spec w given =
    let (source, w1, before, made, waiting, sock, time, asked, ready, timeout, connects, buf, dur) =
      make_connects m fuel fresh spec w given.h given.info given.infos given.mem given.port
        given.free given.host given.service given.endpoint given.reached in
    let bytes : List ℕ = first_borrow (source_private_make fresh spec) in
    let w2 : World = record w {
      errno = w1.errno;
      kernel = w1.kernel;
      clock_calls = w.clock_calls + 1 + 1;
    } in
    let w3 : World = after_send w2 none bytes in
    let on : GoesOn w w3 =
      GoesOn-trans w w2 w3 record { outgoing = refl; incoming = refl; clock = refl }
        (after_send-GoesOn w2 bytes) in
    let late : IsLate w3 source given.d = rw (timeout, time, on.clock) given.late in
    let late_next : IsLate w3 source (given.d + 1) = rw (timeout, time, on.clock) given.late_next in
    let count : w3.clock_calls ≡ w.clock_calls + 1 + 1 = (after_send-counts w2 bytes).1 in
    let working : IsWorking source = record {
      ready = ready;
      buffer = rw buf given.buffer;
      some_time = rw dur given.some_time;
    } in
    let (s, w', ended, ne, works, has, on') =
      await_rounds m given.mem fuel given.d source w3 working waiting
        (GoesOn-service on given.service) (answers_on on given.answers) late late_next
        (omega (arith, count, given.ahead)) (omega (arith, given.ahead, given.enough))
        (omega (arith, count, given.enough)) in
    (
      s,
      w',
      made
          ∙ if_false spec.async_make _ _ given.blocking
          ∙ (ap
                (λ (v : World).
                  source_await_make_completion m fuel source (after_send v none bytes))
                connects
              ∙ ended),
      ne,
      works,
      has,
      GoesOn-trans w w3 w' on on',
    )
