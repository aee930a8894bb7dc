-- ===== src/Compress/Copy.antt =====
-- An operator that copies its input, at most as much as there is room.
use blockrouter.Prelude.{
  ℕ, refl, arith, min, List, ◌++◌, take, drop, length, length-take, length-append, length-drop,
}
use blockrouter.Prelude.Signed.{pos}
use blockrouter.Zlib.{ZlibOperator}
use blockrouter.Compress.Streams.{Lawful}

abbrev pub copy : ZlibOperator
copy = record {
  S = List ℕ;
  reset = λ s. s;
  call = λ s flush inp room. record {
    returned = pos 0;
    consumed = min room (length inp);
    produced = take (min room (length inp)) inp;
    state = s ++ take (min room (length inp)) inp;
  };
}

abbrev pub copy-Lawful : Lawful copy
copy-Lawful = record {
  given = λ s. s;
  gave = λ s. s;
  todo = λ s inp. length inp;
  settled = λ s. Unit;
  goes_on = λ s inp. Unit;
  returns_ok = λ s inp rest room on fine. refl;
  goes_on_behind = λ s inp rest room on fine. tt;
  reads = λ s inp room. omega arith;
  writes = λ s inp room. omega (arith, length-take (min room (length inp)) inp);
  given_more = λ s inp room. refl;
  gave_more = λ s inp room. refl;
  settles = λ s inp room fine eaten some_room. tt;
  no_more = λ s inp rest room fine. omega (
    arith,
    length-append inp rest,
    length-append (drop (min room (length inp)) inp) rest,
    length-drop (min room (length inp)) inp,
  );
  less = λ s inp rest room fine some_input some_room. omega (
    arith,
    length-append inp rest,
    length-append (drop (min room (length inp)) inp) rest,
    length-drop (min room (length inp)) inp,
  );
}
