-- ===== src/Source/Hear.antt =====
-- What a source makes of its sink's messages, without bytes: the phase that it is in, and the time of the last
-- LENT message. The source of src/atolla/source.cpp is held against it.
pub mod Datagrams
pub mod Turns
pub mod Phases
pub mod Updates
pub mod Reads
pub mod Gives
pub mod Puts
pub mod Await
pub mod Made
pub mod Calls
use Prim.Native.String.{String}
use atolla.Prelude.{
  ℕ, ◌+◌, ◌≤◌, ◌<◌, ◌≡◌, ◌∙◌, some, List, [], ◌∷◌, ◌++◌, length, u8, u32, ◌*◌, ◌/◌,
}
use atolla.World.{World, Timespec}
use atolla.Msg.Packet.{lent_packet, fail_packet}
use atolla.Msg.Builder.Encode.{IsReady}
use atolla.Source.State.{Source, SourceState, fail_text}

-- What a sink sends: the ID first, and for a failure the ID of the message that caused it and the code.
pub data Reply : Type 0 where
  lending : ℕ → Reply
  failing : ℕ → ℕ → ℕ → Reply

abbrev pub reply_packet : Reply → List ℕ
reply_packet (lending id) = lent_packet id
reply_packet (failing id causing code) = fail_packet id causing code

abbrev pub reply_packets : List Reply → List ℕ
reply_packets [] = []
reply_packets (r ∷ rs) = reply_packet r ++ reply_packets rs

-- It asks for the lights, has them, or has given up for that reason.
pub data Phase : Type 0 where
  asking : Phase
  holding : Phase
  gone : String → Phase

abbrev pub hear : Phase → Reply → Phase
hear asking (lending id) = holding
hear holding (lending id) = holding
hear (gone text) (lending id) = gone text
hear p (failing id causing code) = gone (fail_text (u8 code))

abbrev pub hear_all : Phase → List Reply → Phase
hear_all p [] = p
hear_all p (r ∷ rs) = hear_all (hear p r) rs

abbrev pub HasPhase : Source → Phase → Type 0
HasPhase s asking = s.state ≡ SourceState.waiting
HasPhase s holding = s.state ≡ SourceState.opened
HasPhase s (gone text) = (s.state ≡ SourceState.error) × (s.error_msg ≡ some text)

-- The phase is in two fields.
pub HasPhase-same :
    (s t : Source) (p : Phase)
    → t.state ≡ s.state
    → t.error_msg ≡ s.error_msg
    → HasPhase s p
    → HasPhase t p
HasPhase-same s t asking a b h = a ∙ h
HasPhase-same s t holding a b h = a ∙ h
HasPhase-same s t (gone text) a b (h, k) = (a ∙ h, b ∙ k)

-- A source that can work: it has its buffers, and its frames take some time.
pub record IsWorking (s : Source) : Type 0 where
  pub ready : IsReady s.builder
  pub buffer : length s.recv_buf ≡ 32
  pub some_time : 0 < s.frame_duration_ms

-- The clock's reading of that number, in milliseconds modulo 2^32.
abbrev pub reading : (ℕ → Timespec) → ℕ → ℕ
reading clock n = u32 ((clock n).tv_sec * 1000 + (clock n).tv_nsec / 1000000)

-- The time of the last LENT message and the number of the next reading, after a reply and after several: a
-- source that has not given up notes the time of a LENT message.
abbrev pub lent_time : (ℕ → Timespec) → Phase → ℕ → ℕ → Reply → ℕ
lent_time clock asking t n (lending id) = reading clock n
lent_time clock holding t n (lending id) = reading clock n
lent_time clock (gone text) t n (lending id) = t
lent_time clock p t n (failing id causing code) = t

abbrev pub next_reading : Phase → ℕ → Reply → ℕ
next_reading asking n (lending id) = n + 1
next_reading holding n (lending id) = n + 1
next_reading (gone text) n (lending id) = n
next_reading p n (failing id causing code) = n

abbrev pub lent_time_all : (ℕ → Timespec) → Phase → ℕ → ℕ → List Reply → ℕ
lent_time_all clock p t n [] = t
lent_time_all clock p t n (r ∷ rs) =
    lent_time_all clock (hear p r) (lent_time clock p t n r) (next_reading p n r) rs

abbrev pub next_reading_all : Phase → ℕ → List Reply → ℕ
next_reading_all p n [] = n
next_reading_all p n (r ∷ rs) = next_reading_all (hear p r) (next_reading p n r) rs

-- Only the clock was read.
abbrev pub HasWaited : World → World → Type 0
HasWaited w w' = (w' ≡ record w { clock_calls = w'.clock_calls }) × (w.clock_calls ≤ w'.clock_calls)
