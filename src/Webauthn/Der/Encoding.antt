-- ===== src/Webauthn/Der/Encoding.antt =====
-- The specification of the decoder: the one DER encoding of a pair of positive integers.
use magna_monorepo.Base.{ℕ, List, ◌∷◌, ◌++◌, if◌then◌else◌, length, ◌-◌, replicate}
use magna_monorepo.Base.Radix.{to_digits}
use magna_monorepo.Webauthn.Der.{high_bit}
use magna_monorepo.Base.{get_elem?}

-- The content of an INTEGER: its bytes, with a zero in front where the first has its high bit set.
unfoldable pub content : ℕ → List ℕ
unfolding to_digits
content n =
    if high_bit (get_elem? (to_digits 256 n) 0) then 0 ∷ to_digits 256 n else to_digits 256 n

unfoldable pub integer_tlv : ℕ → List ℕ
integer_tlv n = 0x02 ∷ length (content n) ∷ content n

unfoldable pub encode_signature : ℕ → ℕ → List ℕ
encode_signature r s =
    0x30 ∷ length (integer_tlv r ++ integer_tlv s) ∷ (integer_tlv r ++ integer_tlv s)

-- The 32 bytes of a number, most significant first.
unfoldable pub bytes_32 : ℕ → List ℕ
bytes_32 n = replicate (32 - length (to_digits 256 n)) 0 ++ to_digits 256 n
