-- ===== src/Sink/Make/Fresh.antt =====
-- A new sink is valid.
use atolla.Prelude.{
  none, some, ℕ, ◌+◌, ◌*◌, ◌<◌, ◌≡◌, refl, ap, ◌∙◌, [], length, arith, ok, lt→ltb, le→leb,
}
use atolla.Prelude.Int.{pos}
use atolla.Machine.{Machine, HasMemory}
use atolla.Mem.Block.{into, MemBlock}
use atolla.Mem.Block.Access.{mem_block_alloc_lem}
use atolla.Mem.Ring.{mem_ring_alloc}
use atolla.Mem.Ring.Slots.{Fits}
use atolla.Mem.Ring.Fifo.{mem_ring_alloc-Holds}
use atolla.Msg.Builder.{MsgBuilder, msg_builder_init}
use atolla.Msg.Builder.Encode.{msg_builder_init_lem}
use atolla.Sink.State.{Sink, SinkState, SinkSpec}
use atolla.Sink.Valid.{IsValid}
use atolla.Sink.Make.{blank_sink, sink_private_make}

-- What of a new sink is known from its specification.
pub record IsNew (lights_count : ℕ) (sink : Sink) : Type 0 where
  pub lights : sink.lights_count ≡ lights_count
  pub index : sink.last_enqueued_frame_idx ≡ pos 0
  pub id : sink.builder.next_msg_id ≡ 0

-- Where no `malloc` fails, for a port below 65536 and at least one light whose frame leaves room for
-- ten bytes in the buffer for datagrams: sink_private_make succeeds, msg_builder_init too, and the
-- sink with that builder is free, has the lights asked for, and is valid with no frame pending.
pub sink_private_make-IsValid :
    (m : Machine) (size_of_sink : ℕ) (spec : SinkSpec)
    → HasMemory m
    → spec.port < 65536
    → 0 < spec.lights_count
    → spec.lights_count * 3 + 10 < 1024
    → (sink : Sink) × (b : MsgBuilder) × (sink_private_make m size_of_sink spec ≡ ok sink)
      × (msg_builder_init m ≡ ok b)
      × (sink.state ≡ SinkState.opened)
      × IsNew spec.lights_count (record sink { builder = b })
      × (sink.error_msg ≡ none)
      × (sink.socket ≡ record { socket_handle = some 0 })
      × IsValid (record sink { builder = b }) []
unfolding sink_private_make
sink_private_make-IsValid m size_of_sink spec mem port some_light small =
    let k : ℕ = spec.lights_count * 3 in
    let (object, given) = mem size_of_sink in
    let (cells, got) = mem k in
    let len : length cells ≡ k = m.malloc_len k cells got in
    let block = mem_block_alloc_lem m k cells got (omega arith) in
    let fits : Fits k 128 = record { block = omega arith; total = omega arith } in
    let (ring, alloc, holds) = mem_ring_alloc-Holds m k 128 mem fits (omega arith) in
    let alloc' : mem_ring_alloc m (k * 128) ≡ ok ring =
      ap (mem_ring_alloc m) (omega arith) ∙ alloc in
    let (b, init, ready, first) = msg_builder_init_lem m mem in
    let frame : MemBlock = record { bytes = into cells 0; size = 0; capacity = k } in
    (
      blank_sink spec.lights_count frame frame ring,
      b,
      rw (
        lt→ltb spec.port 65536 port,
        le→leb 1 spec.lights_count some_light,
        lt→ltb (spec.lights_count * 3 + 10) 1024 small,
        given,
        block,
        alloc',
      ),
      init,
      refl,
      record { lights = refl; index = refl; id = first },
      refl,
      refl,
      record {
        lights = some_light;
        small = small;
        ready = ready;
        buffer = refl;
        current = (cells, refl, len, refl);
        received = (cells, refl, len, refl);
        ring = holds;
        index = omega arith;
      },
    )
