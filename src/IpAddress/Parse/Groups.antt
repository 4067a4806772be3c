-- ===== src/IpAddress/Parse/Groups.antt =====
-- One group of hexadecimal digits of an IPv6 text.
use husarnet.Common.{
  ℕ, suc, ◌+◌, ◌*◌, ◌/◌, ◌%◌, ◌^◌, ◌<◌, ◌≡◌, refl, sym, subst, ap, ap₂, ◌∙◌, true, false, List, [],
  ◌∷◌, ◌++◌, arith, Bytes, ◌==◌, ltb, length, bit_or,
}
use husarnet.Common.Disjoint.{bit_or-halves}
use husarnet.Util.Text.{hex_letter, encode_hex, is_lower}
use husarnet.IpAddress.Text.{group_text}
use husarnet.IpAddress.Parse.{
  Blocks, is_digit, is_xdigit, xdigit_value, put_block, read_blocks, network_order,
}

module _ (n : ℕ) (small : n < 16) where
  hex_letter-is_xdigit : is_xdigit (hex_letter n) ≡ true
  unfolding is_xdigit is_digit hex_letter
  hex_letter-is_xdigit = ground (arith, small)

  hex_letter-no_colon : (hex_letter n == 58) ≡ false
  unfolding hex_letter
  hex_letter-no_colon = ground (arith, small)

  xdigit_value-hex_letter : xdigit_value (hex_letter n) ≡ n
  unfolding xdigit_value is_digit hex_letter is_lower
  xdigit_value-hex_letter = ground (arith, small)

-- More groups begin with a digit.
pub group_text-digit :
    (c d : ℕ) (rest : Bytes)
    → (t : Bytes) × (group_text (c ∷ d ∷ rest) ≡ hex_letter (c / 16 % 16) ∷ t)
unfolding group_text encode_hex
group_text-digit c d [] = (_, refl)
group_text-digit c d (e ∷ rest) = (_, refl)

pub group_text-full : (s : Bytes) → length s ≡ 16 → 0 < length (group_text s)
group_text-full [] e = absurd (omega (arith, e))
group_text-full (c ∷ []) e = absurd (omega (arith, e))
group_text-full (c ∷ d ∷ rest) e =
    let (t, digit) = group_text-digit c d rest in
    subst (λ g. 0 < length g) (sym digit) (omega arith)

-- The block so far, as a function of its value.
abbrev pub blocks : List ℕ → ℕ → ℕ → ℕ → Blocks
blocks words i index value = record {
  words = words;
  addr_index = i;
  block_index = index;
  block_value = value;
}

module _ (zeros : ℕ) (words : List ℕ) (i index : ℕ) where
  read_digit :
      (fuel value n : ℕ) (rest : Bytes)
      → value < 2 ^ 12
      → n < 16
      → read_blocks (suc fuel) zeros (blocks words i index value) (hex_letter n ∷ rest)
        ≡ read_blocks fuel zeros (blocks words i index (value * 16 + n)) rest
  unfolding read_blocks
  read_digit fuel value n rest h k = rw (hex_letter-no_colon n k) (
      rw (hex_letter-is_xdigit n k) (
        ap (λ v. read_blocks fuel zeros (blocks words i index v) rest)
          (ap (λ d. (value * 16 % 2 ^ 32 + d) % 2 ^ 32) (xdigit_value-hex_letter n k)
            ∙ omega arith)))

  -- The four digits of a group.
  pub read_group :
      (fuel a b : ℕ) (rest : Bytes)
      → a < 256
      → b < 256
      → read_blocks (fuel + 4) zeros (blocks words i index 0) (encode_hex (a ∷ b ∷ []) ++ rest)
        ≡ read_blocks fuel zeros (blocks words i index (a * 256 + b)) rest
  unfolding encode_hex
  read_group fuel a b rest h k =
      ap (λ f. read_blocks f zeros (blocks words i index 0) (encode_hex (a ∷ b ∷ []) ++ rest))
        (omega arith)
      ∙ (read_digit (suc (suc (suc fuel))) 0 (a / 16 % 16) _ (omega arith) (omega arith)
          ∙ (read_digit (suc (suc fuel)) _ (a % 16) _ (omega arith) (omega arith)
              ∙ (read_digit (suc fuel) _ (b / 16 % 16) _ (omega arith) (omega arith)
                  ∙ (read_digit fuel _ (b % 16) rest (omega arith) (omega arith)
                      ∙ ap (λ v. read_blocks fuel zeros (blocks words i index v) rest)
                          (omega arith)))))

  -- The colon behind it.
  read_colon :
      (fuel value n : ℕ) (rest : Bytes)
      → n < 16
      → index < 7
      → read_blocks (suc fuel) zeros (blocks words i index value) (58 ∷ hex_letter n ∷ rest)
        ≡ read_blocks fuel zeros
            (record (put_block (blocks words i index value)) {
              block_index = index + 1;
              block_value = 0;
            })
            (hex_letter n ∷ rest)
  unfolding read_blocks
  read_colon fuel value n rest h k = rw (beyond) (rw (hex_letter-no_colon n h) refl)
    where
      beyond : ltb 7 (index + 1) ≡ false
      beyond = ground (arith, k)

  -- A group with its colon.
  pub read_block :
      (fuel a b c d : ℕ) (rest : Bytes)
      → a < 256
      → b < 256
      → index < 7
      → read_blocks (fuel + 5) zeros (blocks words i index 0) (group_text (a ∷ b ∷ c ∷ d ∷ rest))
        ≡ read_blocks fuel zeros
            (record (put_block (blocks words i index (a * 256 + b))) {
              block_index = index + 1;
              block_value = 0;
            })
            (group_text (c ∷ d ∷ rest))
  unfolding group_text
  read_block fuel a b c d rest ha hb k =
      let (t, digit) = group_text-digit c d rest in
      ap
        (λ g.
          read_blocks (fuel + 5) zeros (blocks words i index 0)
            (encode_hex (a ∷ b ∷ []) ++ (58 ∷ g)))
        digit
      ∙ (ap
            (λ f.
              read_blocks f zeros (blocks words i index 0)
                (encode_hex (a ∷ b ∷ []) ++ (58 ∷ hex_letter (c / 16 % 16) ∷ t)))
            (omega arith)
          ∙ (read_group (suc fuel) a b (58 ∷ hex_letter (c / 16 % 16) ∷ t) ha hb
              ∙ (read_colon fuel (a * 256 + b) (c / 16 % 16) t (omega arith) k
                  ∙ ap
                      (λ g.
                        read_blocks fuel zeros
                          (record (put_block (blocks words i index (a * 256 + b))) {
                            block_index = index + 1;
                            block_value = 0;
                          })
                          g)
                      (sym digit))))

-- The two halves of a word, as they are put into it.
abbrev pub high : ℕ → ℕ → ℕ
high a b = (a * 256 + b) * 2 ^ 16 % 2 ^ 32

abbrev pub word : ℕ → ℕ → ℕ → ℕ → ℕ
word a b c d = bit_or (high a b) (c * 256 + d)

pub network_order-word :
    (a b c d : ℕ)
    → a < 256
    → b < 256
    → c < 256
    → d < 256
    → network_order (word a b c d) ≡ a ∷ b ∷ c ∷ d ∷ []
unfolding network_order
network_order-word a b c d ha hb hc hd =
    ap network_order sum
    ∙ ap₂ ◌∷◌ (omega arith)
        (ap₂ ◌∷◌ (omega arith) (ap₂ ◌∷◌ (omega arith) (ap (λ x. x ∷ []) (omega arith))))
  where
    sum : word a b c d ≡ (a * 256 + b) * 2 ^ 16 + (c * 256 + d)
    sum =
        ap (λ x. bit_or x (c * 256 + d)) (omega arith)
        ∙ bit_or-halves (a * 256 + b) (c * 256 + d) (omega arith)
