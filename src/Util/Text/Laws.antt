-- ===== src/Util/Text/Laws.antt =====
-- Hexadecimal text is read back, and cut text joins to what it was.
use husarnet.Common.{
  ℕ, ◌+◌, ◌*◌, ◌/◌, ◌%◌, ◌≤◌, ◌<◌, ◌≡◌, refl, sym, some, List, [], ◌∷◌, ◌++◌, arith, Bytes, IsBytes,
  ◌==◌, leb, length, All, All-append, false, append_assoc, append-nil, Bool-cases, inl, inr, ◌&&◌,
}
use husarnet.Util.Text.{
  hex_letter, hex_digit, encode_hex, decode_pairs, decode_hex, split, split_loop, c_string,
}

hex_digit-hex_letter : (n : ℕ) → n < 16 → hex_digit (hex_letter n) ≡ n
unfolding hex_digit hex_letter
hex_digit-hex_letter n h = ground arith

decode_pairs-encode_hex : (s : Bytes) → IsBytes s → decode_pairs (encode_hex s) ≡ some s
unfolding decode_pairs encode_hex
decode_pairs-encode_hex [] h = refl
decode_pairs-encode_hex (ch ∷ rest) h =
    let high = hex_digit-hex_letter (ch / 16 % 16) (omega arith) in
    let low = hex_digit-hex_letter (ch % 16) (omega arith) in
    ground (arith, high, low, decode_pairs-encode_hex rest, h.0, h.1)

pub length-encode_hex : (s : Bytes) → length (encode_hex s) ≡ 2 * length s
unfolding encode_hex
length-encode_hex [] = omega arith
length-encode_hex (ch ∷ rest) = omega (arith, length-encode_hex rest)

-- Bytes that are written in hexadecimal are read back.
pub decode_hex-encode_hex : (s : Bytes) → IsBytes s → decode_hex (encode_hex s) ≡ s
unfolding decode_hex
decode_hex-encode_hex s h = ground (arith, length-encode_hex s, decode_pairs-encode_hex s h)

-- The parts with the separator between them.
abbrev pub join : ℕ → List Bytes → Bytes
join c [] = []
join c (x ∷ []) = x
join c (x ∷ y ∷ rest) = x ++ (c ∷ join c (y ∷ rest))

-- The loop's result is not empty.
split_loop_cons :
    (c m count : ℕ) (word s : Bytes)
    → (first : Bytes) × (rest : List Bytes) × (split_loop c m count word s ≡ first ∷ rest)
unfolding split_loop
split_loop_cons c m count word [] = (word, [], refl)
split_loop_cons c m count word (ch ∷ s) = elim (Bool-cases (ch == c && leb count m)) [
  | inl e ↦ (word, split_loop c m (count + 1) [] s, ground arith)
  | inr e ↦
      let (first, rest, same) = split_loop_cons c m count (word ++ (ch ∷ [])) s in
      (first, rest, ground (arith, same))
]

join_cons :
    (c : ℕ) (word : Bytes) (list : List Bytes) (first : Bytes) (rest : List Bytes)
    → list ≡ first ∷ rest
    → join c (word ∷ list) ≡ word ++ (c ∷ join c list)
join_cons c word list first rest e = rw e refl

join-split_loop :
    (c m count : ℕ) (word s : Bytes) → join c (split_loop c m count word s) ≡ word ++ s
unfolding split_loop
join-split_loop c m count word [] = sym (append-nil word)
join-split_loop c m count word (ch ∷ s) =
    let (first, rest, same) = split_loop_cons c m (count + 1) [] s in
    ground (
      arith,
      join_cons c word (split_loop c m (count + 1) [] s) first rest same,
      join-split_loop c m (count + 1) [] s,
      join-split_loop c m count (word ++ (ch ∷ [])) s,
      append_assoc word (ch ∷ []) s,
    )

split_loop_few :
    (c m count : ℕ) (word s : Bytes)
    → count ≤ m + 1
    → count + length (split_loop c m count word s) ≤ m + 2
unfolding split_loop
split_loop_few c m count word [] h = omega arith
split_loop_few c m count word (ch ∷ s) h =
    ground
      (arith, split_loop_few c m (count + 1) [] s, split_loop_few c m count (word ++ (ch ∷ [])) s)

-- Text without a character.
abbrev pub Without : ℕ → Bytes → Type 0
Without c word = All (λ x. (x == c) ≡ false) word

-- All parts but the last.
abbrev pub AllButLast : (Bytes → Type 0) → List Bytes → Type 0
AllButLast P [] = Unit
AllButLast P (x ∷ []) = Unit
AllButLast P (x ∷ y ∷ rest) = P x × AllButLast P (y ∷ rest)

AllButLast-cons :
    (P : Bytes → Type 0) (x first : Bytes) (rest more : List Bytes)
    → more ≡ first ∷ rest
    → P x
    → AllButLast P more
    → AllButLast P (x ∷ more)
AllButLast-cons P x first rest [] e p h = cc
AllButLast-cons P x first rest (y ∷ more) e p h = (p, h)

-- Where the loop cuts.
split_loop_cut :
    (c m count : ℕ) (word s : Bytes)
    → (count ≤ m → Without c word)
    → AllButLast (Without c) (split_loop c m count word s)
      × (count + length (split_loop c m count word s) < m + 2
          → All (Without c) (split_loop c m count word s))
unfolding split_loop
split_loop_cut c m count word [] w = (tt, λ few. (w (omega (arith, few)), tt))
split_loop_cut c m count word (ch ∷ s) w = elim (Bool-cases (ch == c && leb count m)) [
  | inl e ↦
      let more = split_loop c m (count + 1) [] s in
      let (first, rest, same) = split_loop_cons c m (count + 1) [] s in
      let cut = split_loop_cut c m (count + 1) [] s (λ h. tt) in
      let clean = w (ground (arith, e)) in
      rw e (
        AllButLast-cons (Without c) word first rest more same clean cut.0,
        λ few. (clean, cut.1 (omega (arith, few))),
      )
  | inr e ↦ rw e (
      split_loop_cut c m count (word ++ (ch ∷ [])) s
        (λ h. All-append (λ x. (x == c) ≡ false) word (ch ∷ []) (w h) (ground (arith, e, h), tt)))
]

-- The parts of a split text, joined with the separator, are the text; they are at most one more than
-- the splits that are allowed; no part but the last has the separator in it, and the last has it only
-- when no more splits are allowed.
pub join-split :
    (s : Bytes) (c m : ℕ)
    → (join c (split s c m) ≡ s)
      × ((length (split s c m) ≤ m + 1)
          × (AllButLast (Without c) (split s c m)
              × (length (split s c m) < m + 1 → All (Without c) (split s c m))))
unfolding split
join-split s c m =
    let cut = split_loop_cut c m 1 [] s (λ h. tt) in
    (
      join-split_loop c m 1 [] s,
      (
        omega (arith, split_loop_few c m 1 [] s (omega arith)),
        (cut.0, λ few. cut.1 (omega (arith, few))),
      ),
    )

-- A character that is neither a space nor a NUL.
abbrev pub IsGraph : ℕ → Type 0
IsGraph c = 33 ≤ c

pub c_string-graph : (s : Bytes) → All IsGraph s → c_string s ≡ s
unfolding c_string
c_string-graph [] h = refl
c_string-graph (c ∷ rest) h = ground (arith, h.0, c_string-graph rest h.1)

hex_letter-IsGraph : (n : ℕ) → n < 16 → IsGraph (hex_letter n)
unfolding hex_letter
hex_letter-IsGraph n h = ground (arith, h)

pub encode_hex-IsGraph : (s : Bytes) → All IsGraph (encode_hex s)
unfolding encode_hex
encode_hex-IsGraph [] = tt
encode_hex-IsGraph (c ∷ rest) = (
  hex_letter-IsGraph (c / 16 % 16) (omega arith),
  (hex_letter-IsGraph (c % 16) (omega arith), encode_hex-IsGraph rest),
)
