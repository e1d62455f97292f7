-- ===== src/Tests/Programs.antt =====
-- The programs of the examples, at concrete values.
use Prim.Native.String.{String}
use atolla.Prelude.{◌+◌, refl, arith, true, List, [], ◌∷◌}
use atolla.Machine.{zeroed}
use atolla.World.{World, datagram}
use atolla.Source.State.{source_private_make}
use atolla.Source.Hear.{lending, reply_packets}
use atolla.Source.Hear.Updates.{replies}
use atolla.Source.Hear.Made.{IsMakeable}
use atolla.Examples.Loop.{example_spec}
use atolla.Examples.Complementary.{Waves}
use atolla.Examples.Yellow
use atolla.Examples.Sine
use atolla.Examples.Complementary
use atolla.Examples.Runs.{Returns, main-Returns}
use atolla.Tests.{zeroed-HasMemory, home, stranger, quiet, quiet-IsDatagramService, source_of}

-- Each call of `recvfrom` has a LENT message, and a second passes between two readings.
abbrev lending_seconds : World
lending_seconds = record quiet {
  incoming = λ i. datagram stranger (reply_packets (lending 0 ∷ []));
  clock = λ i. record { tv_sec = 5 + i; tv_nsec = 0 };
}

abbrev half_lit : Waves
half_lit = record { hue = λ i. i; hue2 = λ i. i + 128; col = λ i. 127 }

abbrev no_arguments : List String
no_arguments = "02-yellow" ∷ []

lending_seconds-IsMakeable :
    IsMakeable zeroed 1 (source_of 0) (example_spec "localhost" 10042) lending_seconds
unfolding source_private_make
lending_seconds-IsMakeable = record {
  h = 2;
  info = record { ai_addr = home; is_datagram = true; is_udp = true };
  infos = [];
  endpoint = home;
  d = 2;
  mem = zeroed-HasMemory;
  port = omega arith;
  blocking = refl;
  free = record { made = refl; set = refl; bound_ok = refl; free = refl };
  host = record { found = refl; udp = (refl, refl, tt) };
  reached = refl;
  service = quiet-IsDatagramService;
  answers = λ i. replies stranger (lending 0) [] (omega arith);
  buffer = refl;
  some_time = omega arith;
  late = omega arith;
  late_next = omega arith;
  ahead = omega arith;
  enough = omega arith;
}

main-Returns_example :
    Returns (Yellow.main zeroed 1 (source_of 0) (λ _. 0) no_arguments lending_seconds)
    × Returns (Sine.main zeroed 1 (source_of 0) (λ i. 127) (λ _. 0) no_arguments lending_seconds)
    × Returns
        (Complementary.main zeroed 1 (source_of 0) half_lit (λ _. 0) no_arguments lending_seconds)
main-Returns_example =
    main-Returns zeroed 1 (source_of 0) (λ _. 0) lending_seconds (λ i. 127) half_lit no_arguments
      lending_seconds-IsMakeable
