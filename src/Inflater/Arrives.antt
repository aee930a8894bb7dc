-- ===== src/Inflater/Arrives.antt =====
-- src/framer.rs, src/inflater.rs and src/compress.rs: a packet that one end deflates and sends, and
-- that the other end cuts out of its stream and inflates.
use blockrouter.Prelude.{ℕ, ◌≡◌, some, List, [], ◌++◌, concat}
use blockrouter.DirectBuf.{DirectBuf}
use blockrouter.Cursor.{Multibytes}
use blockrouter.Parser.Scan.{Scan, done}
use blockrouter.Parser.RoundTrip.{encode}
use blockrouter.Framer.{Framer}
use blockrouter.Framer
use blockrouter.Framer.Framed.{Framed}
use blockrouter.Zlib.{ZLibError, ZlibOperator}
use blockrouter.Compress
use blockrouter.Compress.Streams.{Lawful, EndsShort}
use blockrouter.Compress.RoundTrip.{InStep}
use blockrouter.Inflater
use blockrouter.Inflater.{
  InflateState, PacketInflater, InflateResult, Packet, ok, err, multibytes, zlib_error,
}

-- What is sent of a packet: a size, and the deflated pages.
unfoldable pub sent : ℕ → List (List ℕ) → List ℕ
sent size out = encode 4 size ++ concat out

-- What a number leaves is what it leaves.
rest_of : Scan → List ℕ
rest_of (done gs rest) = rest
rest_of s = []

module _ (D : DirectBuf) (Zd Zi : ZlibOperator) (Ld : Lawful Zd) (Li : Lawful Zi)
    (capacity : ℕ) where
  -- The packet came out of the inflater: its data is `content`, and the ends are in step; or its last page
  -- is full, so that the inflater may hold more back; or the zlib library reports an error.
  pub data Arrives (st : InflateState Zi) (content : List ℕ) (d' : Zd.S)
      (r : PacketInflater Zi × InflateResult D) : Type 0 where
    arrives :
        (s : Zi.S) (header : Multibytes D) (back : List (List ℕ))
        → r ≡ (
          record { inflate = some (record st { inflater = s }) },
          ok (record { h = header; d = multibytes back }),
        )
        → concat back ≡ content
        → InStep Zd Zi Ld Li d' s
        → Arrives st content d' r
    fills :
        (s : Zi.S) (header : Multibytes D) (back : List (List ℕ))
        → r ≡ (
          record { inflate = some (record st { inflater = s }) },
          ok (record { h = header; d = multibytes back }),
        )
        → ¬ EndsShort capacity back
        → Arrives st content d' r
    fails :
        (s : Zi.S) (e : ZLibError)
        → r ≡ (record { inflate = some (record st { inflater = s }) }, err (zlib_error e))
        → Arrives st content d' r
