-- ===== src/Examples/Streams.antt =====
-- The theorems on ostream and istream at concrete messages.
use lnetlib.Base.{ℕ, ◌+◌, ◌≡◌, refl, false, List, [], ◌∷◌, map, Option, none, some, arith, length}
use lnetlib.Bytes.{little, negsuc}
use lnetlib.Streambuf.{list_streambuf}
use lnetlib.Signal.Emit.{emit_moved}
use lnetlib.Stream.OStream.{OStream, ostream, one, two, four}
use lnetlib.Stream.IStream.{IStream, istream, c_string}
use lnetlib.Stream.RoundTrip.{
  Field, shape_of, Memory, write_fields, read_fields, read_fields-write_fields,
}
use lnetlib.Stream.Sending.{scope, scope-emit_moved}

-- A world that counts the bytes that a slot got.
abbrev counting : Option (List ℕ) → ℕ → Option ℕ
counting none w = none
counting (some bs) w = some (w + length bs)

abbrev outgoing : OStream list_streambuf ℕ
outgoing = record {
  buffer = some (1 ∷ 2 ∷ 3 ∷ []);
  sended = false;
  uid = 4;
  dispatch = counting ∷ [];
}

abbrev fields : List Field
fields =
    Field.uint two 513
    ∷ Field.int four (negsuc 2)
    ∷ Field.text one (104 ∷ 105 ∷ [])
    ∷ Field.vector two 2 (record { size = 2; content = 1 ∷ 2 ∷ 3 ∷ 4 ∷ [] })
    ∷ []

abbrev blank : Memory
blank = record { junk = 0; stack = 9 ∷ 9 ∷ 9 ∷ 0 ∷ [] }

read_fields-write_fields_example :
    (s : OStream list_streambuf ℕ) × (b : List ℕ) × (t : IStream list_streambuf ℕ) × (write_fields
        list_streambuf little
        (ostream list_streambuf little 7 5)
        fields
      ≡ some s)
    × (s.buffer ≡ some b)
    × ((istream list_streambuf little {W = ℕ} b 0 0).command ≡ 7)
    × ((istream list_streambuf little {W = ℕ} b 0 0).uid ≡ 5)
    × (read_fields list_streambuf little
          (istream list_streambuf little b 0 0)
          (map shape_of fields)
          (blank ∷ blank ∷ blank ∷ blank ∷ [])
        ≡ some (fields, t))
    × (t.buffer ≡ [])
unfolding c_string
read_fields-write_fields_example =
    read_fields-write_fields list_streambuf little ℕ ℕ 7 5 0 0 fields
      (blank ∷ blank ∷ blank ∷ blank ∷ []) (omega arith) (omega arith)
      (
        omega arith,
        (
          omega arith,
          (
            ((λ e. omega (arith, e), (λ e. omega (arith, e), tt)), omega arith),
            ((omega arith, omega arith, refl), tt),
          ),
        ),
      )
      (tt, (tt, ((9 ∷ [], refl), (tt, tt))))

scope-emit_moved_example : scope list_streambuf little 2 outgoing 10 ≡ some 13
unfolding emit_moved
scope-emit_moved_example = scope-emit_moved list_streambuf little 2 outgoing 10 refl

abbrev request : IStream list_streambuf ℕ
request = record {
  buffer = [];
  fail = false;
  uid = 5;
  command = 7;
  response_dispatch = counting ∷ [];
}

abbrev incoming : List ℕ → IStream list_streambuf ℕ
incoming bs = record { buffer = bs; fail = false; uid = 5; command = 7; response_dispatch = [] }

-- Two bytes for a number of two bytes and a text, whose length does not come.
abbrev garbage : IStream list_streambuf ℕ
garbage = record {
  buffer = 255 ∷ 254 ∷ 7 ∷ [];
  fail = false;
  uid = 0;
  command = 0;
  response_dispatch = [];
}
