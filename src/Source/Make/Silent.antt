-- ===== src/Source/Make/Silent.antt =====
-- A source that is made in the blocking way, on a network from which nothing comes.
use atolla.Prelude.{
  ℕ, ◌+◌, ◌≤◌, ◌<◌, ◌≡◌, refl, ◌∙◌, ap, none, some, false, Bool, Result, if◌then◌else◌, List,
  length, ◌∷◌, ok, arith, sub_u32,
}
use atolla.Machine.{Machine, HasMemory}
use atolla.World.{World, UdpEndpoint, AddrInfo, SysResult, done, failed, IsDatagramService, now}
use atolla.Udp.Sockets.Receiver.{first_reachable}
use atolla.Msg.Builder.Encode.{IsReady}
use atolla.Sink.Send.Replies.{after_send, after_send_with}
use atolla.Source.State.{Source, SourceState, SourceSpec, source_private_make, timed_out_text}
use atolla.Source.Update.{source_await_make_completion}
use atolla.Source.Update.Await.{StaysSilent, IsLate, TimesOut, await-TimesOut}
use atolla.Source.Make.{atolla_source_make}
use atolla.Source.Make.Connect.{IsFound, IsBound, first_borrow, make_connects}

pub if_false : (b : Bool) (x y : Result (Source × World)) → b ≡ false → (if b then x else y) ≡ y
if_false b x y e = rw e refl

-- However the first BORROW message ends.
sent-TimesOut :
    (m : Machine) (bytes : List ℕ) (r : SysResult)
    → HasMemory m
    → (d fuel : ℕ) (s : Source) (w : World) → IsReady s.builder
    → IsDatagramService w
    → s.state ≡ SourceState.waiting
    → StaysSilent w
    → IsLate w s d
    → IsLate w s (d + 1)
    → w.clock_calls ≤ d
    → d < w.clock_calls + fuel
    → TimesOut m fuel s (after_send_with w none bytes r)
sent-TimesOut m bytes (done n) mem d fuel s w ready service waiting silent late late' c f =
    await-TimesOut m mem d fuel s (after_send_with w none bytes (done n)) ready service waiting
      silent late late' c f
sent-TimesOut m bytes (failed e) mem d fuel s w ready service waiting silent late late' c f =
    await-TimesOut m mem d fuel s (after_send_with w none bytes (failed e)) ready service waiting
      silent late late' c f

-- The reading of the clock with that number is late for a first borrow at the next reading.
abbrev pub IsLateFrom : World → ℕ → ℕ → Type 0
IsLateFrom w timeout i = timeout < sub_u32 (now (record w { clock_calls = i })) (now w)

module _ (m : Machine) (fuel : ℕ) (fresh : Source) (spec : SourceSpec) (w : World) (h : ℕ)
    (info : AddrInfo) (infos : List AddrInfo) (mem : HasMemory m) (port : spec.sink_port < 65536)
    (blocking : spec.async_make ≡ false) (free : IsBound h w)
    (host : IsFound (w.kernel.calls + 1 + 1 + 1 + 1) w info infos) where
  -- Where no `malloc` fails and datagrams are sent whole, for a port below 65536 and no `async_make`,
  -- where the calls that make the socket succeed with a descriptor above 0, the host is found at UDP
  -- addresses and `connect` reaches one: on a network from which nothing comes, atolla_source_make
  -- returns, with as many rounds of fuel as there are readings of the clock up to one of number d,
  -- after the two for the first BORROW message, and one more, if that reading and the next are longer
  -- after the first than the disconnect timeout. The source is then in its error state, with the text
  -- for an attempt that timed out.
  pub atolla_source_make-times_out :
      IsDatagramService w
      → (endpoint : UdpEndpoint)
      → first_reachable w.kernel.failure (w.kernel.calls + 1 + 1 + 1 + 1 + 1) (info ∷ infos)
        ≡ some endpoint
      → StaysSilent w
      → (d : ℕ) → IsLateFrom w (source_private_make fresh spec).disconnect_timeout_ms d
      → IsLateFrom w (source_private_make fresh spec).disconnect_timeout_ms (d + 1)
      → w.clock_calls + 2 ≤ d
      → d < w.clock_calls + 2 + fuel
      → (s : Source) × (w' : World) × (atolla_source_make m fuel fresh spec w ≡ ok (s, w'))
        × (s.state ≡ SourceState.error)
        × (s.error_msg ≡ some timed_out_text)
  atolla_source_make-times_out service endpoint reached silent d late late' c f =
      let (source, w1, before, made, waiting, sock, time, asked, ready, timeout, connects, _, _) =
        make_connects m fuel fresh spec w h info infos mem port free host service endpoint
          reached in
      let bytes : List ℕ = first_borrow (source_private_make fresh spec) in
      let w2 : World = record w {
        errno = w1.errno;
        kernel = w1.kernel;
        clock_calls = w.clock_calls + 1 + 1;
      } in
      let late2 : IsLate w2 source d = rw (timeout, time) late in
      let late3 : IsLate w2 source (d + 1) = rw (timeout, time) late' in
      let (s, w', ended, err, text) =
        sent-TimesOut m bytes (w2.outgoing w2.send_calls (length bytes)) mem d fuel source w2 ready
          service waiting silent late2 late3 (omega arith) (omega arith) in
      (
        s,
        w',
        made
            ∙ if_false spec.async_make _ _ blocking
            ∙ (ap
                  (λ (v : World).
                    source_await_make_completion m fuel source (after_send v none bytes))
                  connects
                ∙ ended),
        err,
        text,
      )
