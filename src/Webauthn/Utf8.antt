-- ===== src/Webauthn/Utf8.antt =====
-- `new TextDecoder().decode(bytes)`, as packages/magna-wallet/src/webauthn/cbor.ts uses it: UTF-8
-- with U+FFFD for what is malformed, a leading byte order mark dropped, to UTF-16 code units.
use magna_monorepo.Base.{
  ℕ, ◌+◌, ◌-◌, ◌*◌, ◌/◌, ◌%◌, ◌&&◌, ◌||◌, List, [], ◌∷◌, ◌++◌, ltb, leb, ◌==◌, if◌then◌else◌,
}

-- A decoder between two bytes: how many bytes are still needed, the range of the next one, and the
-- code point so far.
record Decoder : Type 0 where
  needed : ℕ
  lower : ℕ
  upper : ℕ
  point : ℕ

abbrev idle : Decoder
idle = record { needed = 0; lower = 0x80; upper = 0xbf; point = 0 }

-- The code units of a code point.
code_units : ℕ → List ℕ
code_units p =
    if ltb p 0x10000
    then p ∷ []
    else (0xd800 + (p - 0x10000) / 0x400) ∷ (0xdc00 + (p - 0x10000) % 0x400) ∷ []

-- The first byte of a sequence: what is put out, and the decoder behind it.
start : ℕ → List ℕ × Decoder
start b =
    if ltb b 0x80
    then (b ∷ [], idle)
    else if leb 0xc2 b && leb b 0xdf
    then ([], record { needed = 1; lower = 0x80; upper = 0xbf; point = b - 0xc0 })
    else if leb 0xe0 b && leb b 0xef
    then (
      [],
      record {
        needed = 2;
        lower = if b == 0xe0 then 0xa0 else 0x80;
        upper = if b == 0xed then 0x9f else 0xbf;
        point = b - 0xe0;
      },
    )
    else if leb 0xf0 b && leb b 0xf4
    then (
      [],
      record {
        needed = 3;
        lower = if b == 0xf0 then 0x90 else 0x80;
        upper = if b == 0xf4 then 0x8f else 0xbf;
        point = b - 0xf0;
      },
    )
    else (0xfffd ∷ [], idle)

-- One byte. A byte that cannot go on with a sequence ends it, and is read as a first byte.
step : Decoder → ℕ → List ℕ × Decoder
unfolding start code_units
step d b =
    if d.needed == 0
    then start b
    else if ltb b d.lower || ltb d.upper b
    then (let (out, d') = start b in (0xfffd ∷ out, d'))
    else if d.needed == 1
    then (code_units (d.point * 64 + (b - 0x80)), idle)
    else (
      [],
      record {
        needed = d.needed - 1;
        lower = 0x80;
        upper = 0xbf;
        point = d.point * 64 + (b - 0x80);
      },
    )

decode_from : Decoder → List ℕ → List ℕ
unfolding step
decode_from d [] = if d.needed == 0 then [] else 0xfffd ∷ []
decode_from d (b ∷ bytes) = (step d b).0 ++ decode_from (step d b).1 bytes

skip_mark : List ℕ → List ℕ
skip_mark (a ∷ b ∷ c ∷ rest) =
    if a == 0xef && b == 0xbb && c == 0xbf then rest else a ∷ b ∷ c ∷ rest
skip_mark bytes = bytes

unfoldable pub text_decode : List ℕ → List ℕ
unfolding decode_from skip_mark
text_decode bytes = decode_from idle (skip_mark bytes)
