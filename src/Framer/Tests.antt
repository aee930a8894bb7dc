-- ===== src/Framer/Tests.antt =====
-- Concrete runs of a framer, as in the tests of src/framer.rs, and the theorems there.
use blockrouter.Prelude.{ℕ, ◌≡◌, refl, arith, List, [], ◌∷◌}
use blockrouter.Buf.First.{first_byte, first_byte-IsDocumented}
use blockrouter.DirectBuf.Slice.{slice_buf, slice_buf-IsLawful}
use blockrouter.Cursor
use blockrouter.Cursor.{Multibytes}
use blockrouter.Cursor.Position.{flat}
use blockrouter.Cursor.View
use blockrouter.Parser.{varint, decode_loop}
use blockrouter.Framer.{Frame, Framer, FramerState, ok, err, frame, push_buffer}
use blockrouter.Framer.{waiting_for_data, decode_error, after_header, cut_or_wait}
use blockrouter.Framer.Refines.{IsValid, Serves, stream}
use blockrouter.Framer.Header.{frame-Serves}
use blockrouter.Framer.Session.{seen, frame_partition, frame_completes, frame_refuses_again}
use blockrouter.Prelude.{some, ◌++◌, sym, ◌∙◌, All, append-nil}
use blockrouter.Parser.RoundTrip.{encode}
use blockrouter.Framer.{new}
use blockrouter.Framer.Wrapped.{wrap, wrap_all}
use blockrouter.Framer.Receiver.{Event, push, pull, pushed, pulls, IsUsable, receive}
use blockrouter.Framer.Receiver.Owes.{Fits}
use blockrouter.Framer.Receiver.Delivers.{receive_in_order, receive_all}

abbrev framer_of : List (List ℕ) → Framer slice_buf
framer_of pages = record {
  max_frame_size = 128;
  ring = record { b = pages };
  state = FramerState.waiting_for_header;
}

abbrev part : Framer slice_buf
part = framer_of ((3 ∷ 0 ∷ 1 ∷ []) ∷ [])

abbrev two_parts : Framer slice_buf
two_parts = framer_of ((3 ∷ []) ∷ (0 ∷ 1 ∷ []) ∷ [])

abbrev too_large : Framer slice_buf
too_large = framer_of ((0x81 ∷ 0x01 ∷ []) ∷ [])

part-IsValid : IsValid slice_buf part
part-IsValid = record {
  no_empty_page = (omega arith, tt);
  bytes = omega arith;
  small = omega arith;
  state = tt;
}

two_parts-IsValid : IsValid slice_buf two_parts
two_parts-IsValid = record {
  no_empty_page = (omega arith, (omega arith, tt));
  bytes = omega arith;
  small = omega arith;
  state = tt;
}

too_large-IsValid : IsValid slice_buf too_large
too_large-IsValid = record {
  no_empty_page = (omega arith, tt);
  bytes = omega arith;
  small = omega arith;
  state = tt;
}

part_asks : (frame slice_buf first_byte part).1 ≡ err (waiting_for_data 1)
unfolding frame after_header cut_or_wait varint decode_loop View.view View.cursor View.has_atleast
    View.advance View.bytes View.remaining Cursor.run_off_end
part_asks = refl

too_large_refused : (frame slice_buf first_byte too_large).1 ≡ err decode_error
unfolding frame after_header cut_or_wait varint decode_loop View.view View.cursor View.has_atleast
    View.advance View.bytes View.remaining
too_large_refused = refl

frame-Serves_example : Serves slice_buf part (frame slice_buf first_byte part)
frame-Serves_example =
    frame-Serves first_byte first_byte-IsDocumented slice_buf slice_buf-IsLawful part part-IsValid

frame_partition_example :
    (seen slice_buf (frame slice_buf first_byte part).1
      ≡ seen slice_buf (frame slice_buf first_byte two_parts).1)
    × (stream slice_buf (frame slice_buf first_byte part).0
        ≡ stream slice_buf (frame slice_buf first_byte two_parts).0)
frame_partition_example =
    frame_partition slice_buf first_byte first_byte-IsDocumented slice_buf-IsLawful part two_parts
      part-IsValid two_parts-IsValid refl refl

frame_completes_example :
    let g = push_buffer slice_buf (frame slice_buf first_byte part).0 (2 ∷ []) in
    (p : Frame slice_buf) × ((frame slice_buf first_byte g).1 ≡ ok p)
    × (flat slice_buf p.packet.b ≡ 3 ∷ 0 ∷ 1 ∷ 2 ∷ [])
    × (stream slice_buf (frame slice_buf first_byte g).0 ≡ [])
frame_completes_example =
    frame_completes slice_buf first_byte first_byte-IsDocumented slice_buf-IsLawful part
      part-IsValid (2 ∷ []) (omega arith) (omega arith) (omega arith) 1 part_asks refl

frame_refuses_again_example :
    (frame slice_buf first_byte
      (push_buffer slice_buf (frame slice_buf first_byte too_large).0 (2 ∷ []))).1
    ≡ err decode_error
frame_refuses_again_example =
    frame_refuses_again slice_buf first_byte first_byte-IsDocumented slice_buf-IsLawful too_large
      too_large-IsValid (2 ∷ []) (omega arith) (omega arith) (omega arith) too_large_refused

-- Two packets in three buffers, with calls between them.
abbrev mixed : List (Event slice_buf)
mixed = push (2 ∷ []) ∷ pull ∷ push (9 ∷ []) ∷ push (8 ∷ 1 ∷ 7 ∷ []) ∷ pull ∷ []

abbrev two_packets : List (List ℕ)
two_packets = (9 ∷ 8 ∷ []) ∷ (7 ∷ []) ∷ []

two_packets-wrapped : wrap_all two_packets ≡ 2 ∷ 9 ∷ 8 ∷ 1 ∷ 7 ∷ []
unfolding wrap_all wrap encode
two_packets-wrapped = refl

mixed-pushed : pushed slice_buf mixed ≡ 2 ∷ 9 ∷ 8 ∷ 1 ∷ 7 ∷ []
unfolding pushed
mixed-pushed = refl

mixed-IsUsable : All (IsUsable slice_buf) mixed
unfolding IsUsable
mixed-IsUsable = (
  (omega arith, omega arith),
  (tt, ((omega arith, omega arith), ((omega arith, omega arith), (tt, tt)))),
)

two_packets-Fits : All (Fits slice_buf 128) two_packets
two_packets-Fits = ((omega arith, omega arith), ((omega arith, omega arith), tt))

receive_all_example :
    (g : Framer slice_buf) × (receive slice_buf first_byte
        (mixed ++ pulls slice_buf 2)
        (new slice_buf 128)
      ≡ some (g, two_packets))
    × (stream slice_buf g ≡ [])
receive_all_example =
    receive_all slice_buf 128 first_byte first_byte-IsDocumented slice_buf-IsLawful mixed
      two_packets mixed-IsUsable two_packets-Fits (rw two_packets-wrapped (omega arith))
      (mixed-pushed ∙ sym two_packets-wrapped)

receive_in_order_example :
    (g : Framer slice_buf) × (out : List (List ℕ)) × (rest : List (List ℕ)) × (receive slice_buf
        first_byte mixed
        (new slice_buf 128)
      ≡ some (g, out))
    × (out ++ rest ≡ two_packets)
    × (stream slice_buf g ++ [] ≡ wrap_all rest)
receive_in_order_example =
    receive_in_order slice_buf 128 first_byte first_byte-IsDocumented slice_buf-IsLawful mixed
      two_packets mixed-IsUsable two_packets-Fits (rw two_packets-wrapped (omega arith)) []
      (append-nil (pushed slice_buf mixed) ∙ mixed-pushed ∙ sym two_packets-wrapped)
