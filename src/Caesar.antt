-- ===== src/Caesar.antt =====
-- The cipher of project0/part3/caesar.c, on texts without their final NUL. The key is not negative.
mod Tests
use cs5600_computer_systems.Prelude.{
  ℕ, ◌+◌, ◌-◌, ◌%◌, ◌<◌, ◌≤◌, ◌≡◌, refl, Bool, true, false, ◌&&◌, List, [], ◌∷◌, map, arith, ltb,
  leb, if◌then◌else◌, Str, ap₂,
}

-- `toupper` of the C library, on the letters of ASCII.
abbrev pub toupper : ℕ → ℕ
toupper c = if leb b'a' c && leb c b'z' then c - 32 else c

-- `ch >= 'A' && ch <= 'Z'`
abbrev pub is_letter : ℕ → Bool
is_letter ch = leb b'A' ch && leb ch b'Z'

-- One round of the loop of `encode`.
unfoldable pub encode_char : ℕ → ℕ → ℕ
encode_char key c = if is_letter (toupper c) then (toupper c - b'A' + key) % 26 + b'A' else c

-- One round of the loop of `decode`. The remainder of a negative number is not positive.
unfoldable pub decode_char : ℕ → ℕ → ℕ
decode_char key c =
    if is_letter (toupper c)
    then if leb key (toupper c - b'A' + 26)
      then (toupper c - b'A' + 26 - key) % 26 + b'A'
      else b'A' - (key - (toupper c - b'A' + 26)) % 26
    else c

unfoldable pub encode : Str → ℕ → Str
encode plaintext key = map (encode_char key) plaintext

unfoldable pub decode : Str → ℕ → Str
decode ciphertext key = map (decode_char key) ciphertext

encode_char-letter :
    (key c : ℕ)
    → is_letter (toupper c) ≡ true
    → encode_char key c ≡ (toupper c - b'A' + key) % 26 + b'A'
unfolding encode_char
encode_char-letter key c h = ground arith

shifted_back : (x key : ℕ) → x < 26 → key ≤ 26 → ((x + key) % 26 + 26 - key) % 26 ≡ x
shifted_back x key lt small = omega arith

decode_char-encode_char : (key c : ℕ) → key ≤ 26 → decode_char key (encode_char key c) ≡ toupper c
unfolding decode_char encode_char
decode_char-encode_char key c small = ground arith

-- For a key of at most 26, `decode` of the `encode` of a text, with the same key, is the text
-- with its letters in upper case.
pub decode-encode_upper :
    (plaintext : Str) (key : ℕ)
    → key ≤ 26
    → decode (encode plaintext key) key ≡ map toupper plaintext
unfolding encode decode
decode-encode_upper [] key small = refl
decode-encode_upper (c ∷ r) key small =
    ap₂ ◌∷◌ (decode_char-encode_char key c small) (decode-encode_upper r key small)
