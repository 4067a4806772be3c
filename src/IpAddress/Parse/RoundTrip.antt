-- ===== src/IpAddress/Parse/RoundTrip.antt =====
-- An IPv4 address is read back from its text.
use husarnet.Common.{
  ℕ, zero, suc, ◌+◌, ◌-◌, ◌*◌, ◌/◌, ◌%◌, ◌^◌, ◌≤◌, ◌<◌, ◌≡◌, refl, sym, ap, ap₂, ◌∙◌, ◌||◌, Option,
  none, some, [], ◌∷◌, ◌++◌, arith, Bytes, ◌==◌, ltb, if◌then◌else◌, length, byte_at, Bool-cases,
  inl, inr, append-nil, All, All-append, same_bytes, ◌>>=◌, drop,
}
use husarnet.Util.Decimal.{digits_of, to_string}
use husarnet.IpAddress.{IpAddress, no_address, is_mapped_v4, from_binary4}
use husarnet.Util.Text.{c_string, is_space}
use husarnet.Util.Text.Laws.{IsGraph, c_string-graph}
use husarnet.IpAddress.Text.{dotted_text, address_text}
use husarnet.IpAddress.Parse.{
  is_digit, read_digits, read_number, read_parts, join_parts, ip4addr_aton, ip6addr_aton,
  network_order, parse_address,
}

-- The end of the text, or a dot.
abbrev Stops : Bytes → Type 0
Stops [] = Unit
Stops (c ∷ rest) = c ≡ 46

digits_of-one : (fuel n : ℕ) → n < 10 → digits_of (suc fuel) n ≡ (48 + n) ∷ []
unfolding digits_of
digits_of-one fuel n h = ground arith

digits_of-more :
    (fuel n : ℕ) → 10 ≤ n → digits_of (suc fuel) n ≡ digits_of fuel (n / 10) ++ ((48 + n % 10) ∷ [])
unfolding digits_of
digits_of-more fuel n h = ground arith

read_digits-stop :
    (base val : ℕ) (rest : Bytes) → base < 16 → Stops rest → read_digits base val rest ≡ (val, rest)
unfolding read_digits is_digit
read_digits-stop base val [] h e = refl
read_digits-stop base val (c ∷ rest) h e = ground arith

read_digit :
    (val digit : ℕ) (rest : Bytes)
    → val < 1000
    → digit < 10
    → read_digits 10 val ((48 + digit) ∷ rest) ≡ read_digits 10 (val * 10 + digit) rest
unfolding read_digits is_digit
read_digit val digit rest h k = if_digit ∙ ap (λ v. read_digits 10 v rest) (omega arith)
  where
    if_digit :
        read_digits 10 val ((48 + digit) ∷ rest)
        ≡ read_digits 10 ((val * 10 % 2 ^ 32 + (48 + digit - 48)) % 2 ^ 32) rest
    if_digit = ground arith

read_number-decimal :
    (digit : ℕ) (rest : Bytes)
    → 0 < digit
    → digit < 10
    → read_number ((48 + digit) ∷ rest) ≡ some (read_digits 10 digit rest)
unfolding read_number is_digit
read_number-decimal digit rest h k =
    first
    ∙ ap some
        (read_digit 0 digit rest (omega arith) k ∙ ap (λ v. read_digits 10 v rest) (omega arith))
  where
    first : read_number ((48 + digit) ∷ rest) ≡ some (read_digits 10 0 ((48 + digit) ∷ rest))
    first = ground arith

read_number-zero : (rest : Bytes) → Stops rest → read_number (48 ∷ rest) ≡ some (0, rest)
unfolding read_number is_digit
read_number-zero [] e = ap some (read_digits-stop 8 0 [] (omega arith) tt)
read_number-zero (c ∷ rest) e = plain ∙ ap some (read_digits-stop 8 0 (c ∷ rest) (omega arith) e)
  where
    plain : read_number (48 ∷ c ∷ rest) ≡ some (read_digits 8 0 (c ∷ rest))
    plain = ground arith

-- The three lengths of a byte in decimal.
two_digits : (n : ℕ) → 10 ≤ n → n < 100 → to_string n ≡ (48 + n / 10) ∷ (48 + n % 10) ∷ []
unfolding to_string
two_digits n h k =
    digits_of-more 19 n h
    ∙ ap (λ s. s ++ ((48 + n % 10) ∷ [])) (digits_of-one 18 (n / 10) (omega arith))

three_digits :
    (n : ℕ)
    → 100 ≤ n
    → n < 1000
    → to_string n ≡ (48 + n / 10 / 10) ∷ (48 + n / 10 % 10) ∷ (48 + n % 10) ∷ []
unfolding to_string
three_digits n h k =
    digits_of-more 19 n (omega arith)
    ∙ ap (λ s. s ++ ((48 + n % 10) ∷ []))
        (digits_of-more 18 (n / 10) (omega arith)
          ∙ ap (λ s. s ++ ((48 + n / 10 % 10) ∷ [])) (digits_of-one 17 (n / 10 / 10) (omega arith)))

one_digit : (n : ℕ) → n < 10 → to_string n ≡ (48 + n) ∷ []
unfolding to_string
one_digit n h = digits_of-one 19 n h

module _ (n : ℕ) (small : n < 256) (rest : Bytes) (stops : Stops rest) where
  read_one : n < 10 → read_number ((48 + n) ∷ rest) ≡ some (n, rest)
  read_one h = elim (Bool-cases (n == 0)) [
    | inl e ↦
        let zero_n : n ≡ 0 = ground (arith, e) in
        ap (λ m. read_number ((48 + m) ∷ rest)) zero_n
        ∙ (read_number-zero rest stops ∙ ap (λ m. some (m, rest)) (sym zero_n))
    | inr e ↦
        read_number-decimal n rest (ground (arith, e)) h
        ∙ ap some (read_digits-stop 10 n rest (omega arith) stops)
  ]

  read_two : 10 ≤ n → n < 100 → read_number ((48 + n / 10) ∷ (48 + n % 10) ∷ rest) ≡ some (n, rest)
  read_two h k =
      read_number-decimal (n / 10) ((48 + n % 10) ∷ rest) (omega arith) (omega arith)
      ∙ ap some (
          read_digit (n / 10) (n % 10) rest (omega arith) (omega arith)
          ∙ (read_digits-stop 10 (n / 10 * 10 + n % 10) rest (omega arith) stops
              ∙ ap (λ m. (m, rest)) (omega arith)))

  read_three :
      100 ≤ n
      → read_number ((48 + n / 10 / 10) ∷ (48 + n / 10 % 10) ∷ (48 + n % 10) ∷ rest)
        ≡ some (n, rest)
  read_three h =
      read_number-decimal (n / 10 / 10) ((48 + n / 10 % 10) ∷ (48 + n % 10) ∷ rest) (omega arith)
        (omega arith)
      ∙ ap some (
          read_digit (n / 10 / 10) (n / 10 % 10) ((48 + n % 10) ∷ rest) (omega arith) (omega arith)
          ∙ (read_digit (n / 10 / 10 * 10 + n / 10 % 10) (n % 10) rest (omega arith) (omega arith)
              ∙ (read_digits-stop 10 ((n / 10 / 10 * 10 + n / 10 % 10) * 10 + n % 10) rest
                    (omega arith) stops
                  ∙ ap (λ m. (m, rest)) (omega arith))))

  read_number-to_string : read_number (to_string n ++ rest) ≡ some (n, rest)
  read_number-to_string = elim (Bool-cases (ltb n 10)) [
    | inl one ↦
        ap (λ s. read_number (s ++ rest)) (one_digit n (ground (arith, one)))
        ∙ read_one (ground (arith, one))
    | inr more ↦ elim (Bool-cases (ltb n 100)) [
      | inl two ↦
          ap (λ s. read_number (s ++ rest))
            (two_digits n (ground (arith, more)) (ground (arith, two)))
          ∙ read_two (ground (arith, more)) (ground (arith, two))
      | inr three ↦
          ap (λ s. read_number (s ++ rest))
            (three_digits n (ground (arith, three)) (omega (arith, small)))
          ∙ read_three (ground (arith, three))
    ]
  ]

read_parts-dot :
    (more n : ℕ) (s : Bytes)
    → n < 256
    → read_parts (suc more) (to_string n ++ (46 ∷ s))
      ≡ (read_parts more s >>= λ rest. some (n ∷ rest.0, rest.1))
unfolding read_parts
read_parts-dot more n s h =
    ap
      (λ o. o >>= λ r.
        if byte_at r.1 0 == 46
        then (read_parts more (drop 1 r.1) >>= λ rest. some (r.0 ∷ rest.0, rest.1))
        else some (r.0 ∷ [], r.1))
      (read_number-to_string n h (46 ∷ s) refl)

read_parts-end : (more n : ℕ) → n < 256 → read_parts (suc more) (to_string n) ≡ some (n ∷ [], [])
unfolding read_parts
read_parts-end more n h =
    ap (λ s. read_parts (suc more) s) (sym (append-nil (to_string n)))
    ∙ ap
        (λ o. o >>= λ r.
          if byte_at r.1 0 == 46
          then (read_parts more (drop 1 r.1) >>= λ rest. some (r.0 ∷ rest.0, rest.1))
          else some (r.0 ∷ [], r.1))
        (read_number-to_string n h [] tt)

module _ (a b c d : ℕ) (ha : a < 256) (hb : b < 256) (hc : c < 256) (hd : d < 256) where
  read_parts-dotted_text :
      read_parts 4 (dotted_text (a ∷ b ∷ c ∷ d ∷ [])) ≡ some (a ∷ b ∷ c ∷ d ∷ [], [])
  unfolding dotted_text
  read_parts-dotted_text =
      read_parts-dot 3 a (dotted_text (b ∷ c ∷ d ∷ [])) ha
      ∙ ap (λ o. o >>= λ rest. some (a ∷ rest.0, rest.1))
          (read_parts-dot 2 b (dotted_text (c ∷ d ∷ [])) hb
            ∙ ap (λ o. o >>= λ rest. some (b ∷ rest.0, rest.1))
                (read_parts-dot 1 c (dotted_text (d ∷ [])) hc
                  ∙ ap (λ o. o >>= λ rest. some (c ∷ rest.0, rest.1)) (read_parts-end 0 d hd)))

  joined : ℕ
  joined = a * 2 ^ 24 + b * 2 ^ 16 + c * 2 ^ 8 + d

  join_parts-four : join_parts (a ∷ b ∷ c ∷ d ∷ []) ≡ some joined
  unfolding join_parts joined
  join_parts-four = ground (arith, ha, hb, hc, hd)

  network_order-joined : network_order joined ≡ a ∷ b ∷ c ∷ d ∷ []
  unfolding network_order joined
  network_order-joined = ap₂ ◌∷◌ (omega (arith, ha, hb, hc, hd)) (
      ap₂ ◌∷◌ (omega (arith, ha, hb, hc, hd)) (
        ap₂ ◌∷◌ (omega (arith, ha, hb, hc, hd)) (ap (λ x. x ∷ []) (omega (arith, ha, hb, hc, hd)))))

  ip4addr_aton-dotted_text :
      ip4addr_aton (dotted_text (a ∷ b ∷ c ∷ d ∷ [])) ≡ some (a ∷ b ∷ c ∷ d ∷ [])
  unfolding ip4addr_aton
  ip4addr_aton-dotted_text =
      ap
        (λ o. o >>= λ r.
          if length r.1 == 0 || is_space (byte_at r.1 0)
          then (join_parts r.0 >>= λ val. some (network_order val))
          else none)
        read_parts-dotted_text
      ∙ (ap (λ o. o >>= λ val. some (network_order val)) join_parts-four
          ∙ ap some network_order-joined)

digits_of-IsGraph : (fuel n : ℕ) → All IsGraph (digits_of fuel n)
unfolding digits_of
digits_of-IsGraph zero n = tt
digits_of-IsGraph (suc fuel) n = elim (Bool-cases (ltb n 10)) [
  | inl e ↦ rw e (omega arith, tt)
  | inr e ↦ rw e (All-append IsGraph _ _ (digits_of-IsGraph fuel (n / 10)) (omega arith, tt))
]

dotted_text-IsGraph : (ns : Bytes) → All IsGraph (dotted_text ns)
unfolding dotted_text to_string
dotted_text-IsGraph [] = tt
dotted_text-IsGraph (n ∷ []) = digits_of-IsGraph 20 n
dotted_text-IsGraph (n ∷ m ∷ rest) =
    All-append IsGraph _ _ (digits_of-IsGraph 20 n) (omega arith, dotted_text-IsGraph (m ∷ rest))

-- An IPv4 address that is printed is read back: each of its numbers, a leading zero included, and no
-- number is taken for an octal one.
pub parse_address-address_text :
    (a b c d : ℕ)
    → a < 256
    → b < 256
    → c < 256
    → d < 256
    → parse_address (address_text (from_binary4 (a ∷ b ∷ c ∷ d ∷ [])))
      ≡ from_binary4 (a ∷ b ∷ c ∷ d ∷ [])
unfolding parse_address address_text is_mapped_v4 same_bytes from_binary4
parse_address-address_text a b c d ha hb hc hd = ap of_text (
    ap ip4addr_aton
      (c_string-graph (dotted_text (a ∷ b ∷ c ∷ d ∷ [])) (dotted_text-IsGraph (a ∷ b ∷ c ∷ d ∷ [])))
    ∙ ip4addr_aton-dotted_text a b c d ha hb hc hd)
  where
    of_text : Option Bytes → IpAddress
    of_text none = elim (ip6addr_aton (c_string (dotted_text (a ∷ b ∷ c ∷ d ∷ [])))) [
      | some bytes ↦ bytes
      | none ↦ no_address
    ]
    of_text (some v4) = from_binary4 v4
