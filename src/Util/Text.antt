-- ===== src/Util/Text.antt =====
-- core/husarnet/util.h and util.cpp: text. Characters are bytes; `isspace`, `toupper` and their kin are
-- those of the C locale.
pub mod Laws
use husarnet.Common.{
  ℕ, zero, suc, ◌+◌, ◌-◌, ◌*◌, ◌/◌, ◌%◌, ◌^◌, Bool, true, false, not, ◌&&◌, ◌||◌, Option, none,
  some, List, [], ◌∷◌, ◌++◌, Bytes, ◌==◌, ltb, leb, if◌then◌else◌, length, take, drop, replicate,
  same_bytes, map,
}

unfoldable pub hex_letter : ℕ → ℕ
hex_letter n = if ltb n 10 then 48 + n else 87 + n

unfoldable pub encode_hex : Bytes → Bytes
unfolding hex_letter
encode_hex [] = []
encode_hex (ch ∷ rest) = hex_letter (ch / 16 % 16) ∷ hex_letter (ch % 16) ∷ encode_hex rest

-- The place of a letter in `hexLetters`, 16 if it has none.
unfoldable pub hex_digit : ℕ → ℕ
hex_digit c = if leb 48 c && leb c 57 then c - 48 else if leb 97 c && leb c 102 then c - 87 else 16

-- The loop of `decodeHex`; `none` is the return of "".
unfoldable pub decode_pairs : Bytes → Option Bytes
decode_pairs [] = some []
decode_pairs (a ∷ []) = some []
decode_pairs (a ∷ b ∷ rest) =
    if hex_digit a == 16 || hex_digit b == 16 then none else elim (decode_pairs rest) [
      | none ↦ none
      | some bytes ↦ some ((hex_digit a * 16 + hex_digit b) ∷ bytes)
    ]

unfoldable pub decode_hex : Bytes → Bytes
decode_hex s =
    if not (length s % 2 == 0) then [] else elim (decode_pairs s) [ none ↦ [] | some bytes ↦ bytes ]

-- The place of a letter among the 64, `none` if it has none.
unfoldable pub charmap : ℕ → Option ℕ
charmap c =
    if leb 65 c && leb c 90
    then some (c - 65)
    else if leb 97 c && leb c 122
    then some (c - 71)
    else if leb 48 c && leb c 57
    then some (c + 4)
    else if c == 43
    then some 62
    else if c == 47
    then some 63
    else none

-- The loop of `base64Decode`: `val`, and `pos + 8`.
unfoldable pub base64_loop : ℕ → ℕ → Bytes → Bytes
base64_loop val pos [] = []
base64_loop val pos (c ∷ rest) = elim (charmap c) [
  | none ↦ base64_loop val pos rest
  | some digit ↦
      let more = (val * 64 % 2 ^ 32 + digit) % 2 ^ 32 in
      let waiting = base64_loop more (pos + 6) rest in
      let shorter = base64_loop more (pos - 2) rest in
      if leb 8 (pos + 6) then (more / 2 ^ (pos - 2) % 256) ∷ shorter else waiting
]

unfoldable pub base64_decode : Bytes → Bytes
base64_decode s = base64_loop 0 0 s

unfoldable pub starts_with : Bytes → Bytes → Bool
starts_with s with_ = leb (length with_) (length s) && same_bytes (take (length with_) s) with_

unfoldable pub ends_with : Bytes → Bytes → Bool
ends_with s with_ =
    leb (length with_) (length s) && same_bytes (drop (length s - length with_) s) with_

unfoldable pub remove_prefix : Bytes → Bytes → Bytes
remove_prefix s prefix = if not (starts_with s prefix) then s else drop (length prefix) s

unfoldable pub is_space : ℕ → Bool
is_space c = (leb 9 c && leb c 13) || c == 32

-- `splitWhitespace`: `word` is `res.back()`.
unfoldable pub split_whitespace_loop : Bytes → Bytes → List Bytes
split_whitespace_loop word [] = if length word == 0 then [] else word ∷ []
split_whitespace_loop word (ch ∷ rest) =
    let next = split_whitespace_loop [] rest in
    let longer = split_whitespace_loop (word ++ (ch ∷ [])) rest in
    if is_space ch then if ltb 0 (length word) then word ∷ next else next else longer

unfoldable pub split_whitespace : Bytes → List Bytes
split_whitespace s = split_whitespace_loop [] s

-- `split`: `count` is `res.size()` and `word` is `res.back()`; `maxSplit` is at least 0.
unfoldable pub split_loop : ℕ → ℕ → ℕ → Bytes → Bytes → List Bytes
split_loop by_char max_split count word [] = word ∷ []
split_loop by_char max_split count word (ch ∷ rest) =
    let next = split_loop by_char max_split (count + 1) [] rest in
    let longer = split_loop by_char max_split count (word ++ (ch ∷ [])) rest in
    if ch == by_char && leb count max_split then word ∷ next else longer

unfoldable pub split : Bytes → ℕ → ℕ → List Bytes
split s by_char max_split = split_loop by_char max_split 1 [] s

unfoldable pub str_to_upper : Bytes → Bytes
str_to_upper s = map (λ c. if leb 97 c && leb c 122 then c - 32 else c) s

unfoldable pub str_to_lower : Bytes → Bytes
str_to_lower s = map (λ c. if leb 65 c && leb c 90 then c + 32 else c) s

unfoldable pub ltrim : Bytes → Bytes
ltrim [] = []
ltrim (c ∷ rest) = let shorter = ltrim rest in if is_space c then shorter else c ∷ rest

-- From the last character on, as long as there is only space behind.
unfoldable pub rtrim : Bytes → Bytes
rtrim [] = []
rtrim (c ∷ rest) =
    let shorter = rtrim rest in if is_space c && (length shorter == 0) then [] else c ∷ shorter

unfoldable pub trim : Bytes → Bytes
trim s = ltrim (rtrim s)

unfoldable pub is_upper : ℕ → Bool
is_upper c = leb 65 c && leb c 90

unfoldable pub is_lower : ℕ → Bool
is_lower c = leb 97 c && leb c 122

-- The loop of `camelCaseToUnderscores` after the character `last`.
unfoldable pub camel_loop : ℕ → Bytes → Bytes
camel_loop last [] = []
camel_loop last (c ∷ rest) =
    let more = camel_loop c rest in if is_upper c && is_lower last then 95 ∷ c ∷ more else c ∷ more

-- Of an empty string it reads past the end: `none`.
unfoldable pub camel_case_to_underscores : Bytes → Option Bytes
camel_case_to_underscores [] = none
camel_case_to_underscores (c ∷ rest) = some (c ∷ camel_loop c rest)

unfoldable pub str_to_bool : Bytes → Bool
str_to_bool s =
    let r = trim s in
    same_bytes r (b't' ∷ b'r' ∷ b'u' ∷ b'e' ∷ [])
    || same_bytes r (b'1' ∷ [])
    || same_bytes r (b'y' ∷ b'e' ∷ b's' ∷ [])
    || same_bytes r (b'o' ∷ b'n' ∷ [])

unfoldable pub pad_size : ℕ → Bytes → ℕ
pad_size min_length text = if ltb (length text) min_length then min_length - length text else 0

unfoldable pub pad_right : ℕ → Bytes → ℕ → Bytes
pad_right min_length text padding = text ++ replicate (pad_size min_length text) padding

unfoldable pub pad_left : ℕ → Bytes → ℕ → Bytes
pad_left min_length text padding = replicate (pad_size min_length text) padding ++ text

-- The text that a pointer to characters stands for.
unfoldable pub c_string : Bytes → Bytes
c_string [] = []
c_string (c ∷ rest) = let more = c_string rest in if c == 0 then [] else c ∷ more
