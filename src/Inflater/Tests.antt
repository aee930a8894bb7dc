-- ===== src/Inflater/Tests.antt =====
-- A compressed packet, with an operator that copies.
use blockrouter.Prelude.{ℕ, some, [], ◌∷◌, arith, length-drop}
use blockrouter.Prelude.Signed.{pos}
use blockrouter.Buf.First.{first_byte, first_byte-IsDocumented}
use blockrouter.DirectBuf.Slice.{slice_buf, slice_buf-IsLawful}
use blockrouter.Framer.{Frame}
use blockrouter.Compress.Copy.{copy, copy-Lawful}
use blockrouter.Inflater.{PacketInflater, inflate}
use blockrouter.Inflater.Pages.{Owed}
use blockrouter.Inflater.Unpacks.{inflate-Owed}
use blockrouter.Parser.Scan.{scan}
use blockrouter.Prelude.{List}
use blockrouter.Framer
use blockrouter.Framer.{Framer, FramerState}
use blockrouter.Zlib
use blockrouter.Compress
use blockrouter.Inflater.Arrives.{Arrives}

abbrev started : PacketInflater copy
started = record { inflate = some (record { threshold = pos 2; inflater = [] }) }

-- A size of 3, and 7, 8, 9.
abbrev sized : Frame slice_buf
sized = record {
  packet = record { b = (4 ∷ 3 ∷ []) ∷ (7 ∷ 8 ∷ 9 ∷ []) ∷ [] };
  data_start = record { of = 0; i = 1 };
}

inflate-Owed_example :
    Owed slice_buf copy copy-Lawful 8
      (record { threshold = pos 2; inflater = [] })
      sized.packet
      (scan 5 (3 ∷ 7 ∷ 8 ∷ 9 ∷ []))
      (inflate first_byte slice_buf copy 8 9 started sized)
inflate-Owed_example =
    inflate-Owed first_byte first_byte-IsDocumented slice_buf slice_buf-IsLawful copy copy-Lawful 8
      9 (record { threshold = pos 2; inflater = [] }) sized.packet (omega arith) (omega arith)
      (omega arith) sized.data_start
      (record { inside = omega arith; within = omega arith; aligned = omega arith })
      (omega arith, (omega arith, (omega arith, (omega arith, tt))))
      (λ k. omega (arith, length-drop {A = ℕ} k (3 ∷ 7 ∷ 8 ∷ 9 ∷ []))) (λ gs rest e. tt)

abbrev content : List (List ℕ)
content = (7 ∷ 8 ∷ 9 ∷ []) ∷ []

-- The packet in two buffers, and the first byte of the next one.
abbrev receiver : Framer slice_buf
receiver = record {
  max_frame_size = 128;
  ring = record { b = (4 ∷ 3 ∷ []) ∷ (7 ∷ 8 ∷ 9 ∷ 1 ∷ []) ∷ [] };
  state = FramerState.waiting_for_header;
}
