-- ===== src/Caesar/Tests.antt =====
-- The cipher on one text.
use cs5600_computer_systems.Prelude.{◌≡◌, [], ◌∷◌, map, arith}
use cs5600_computer_systems.Caesar.{encode, decode, toupper, decode-encode_upper}

decode-encode_upper_example :
    decode (encode (b'a' ∷ b'Z' ∷ b' ' ∷ []) 3) 3 ≡ map toupper (b'a' ∷ b'Z' ∷ b' ' ∷ [])
decode-encode_upper_example = decode-encode_upper (b'a' ∷ b'Z' ∷ b' ' ∷ []) 3 (omega arith)
