-- ===== src/NgSocket/Parse/RoundTrip/Layout.antt =====
-- The 145 bytes of a greeting: kind, id, key, addressee, cookie and signature.
use husarnet.Common.{
  ℕ, ◌≡◌, refl, [], ◌∷◌, ◌++◌, Bytes, arith, length, length-append, substr, substr_field,
  append_assoc, append-nil, take_field,
}

abbrev pub signed_part : ℕ → Bytes → Bytes → Bytes → Bytes → Bytes
signed_part k id key your cookie = k ∷ (id ++ (key ++ (your ++ cookie)))

abbrev pub greeting : ℕ → Bytes → Bytes → Bytes → Bytes → Bytes → Bytes
greeting k id key your cookie sig = signed_part k id key your cookie ++ sig

module _ (k : ℕ) (id key your cookie sig : Bytes) (hid : length id ≡ 16) (hkey : length key ≡ 32)
    (hyour : length your ≡ 16) (hcookie : length cookie ≡ 16) (hsig : length sig ≡ 64) where
  length-signed : length (signed_part k id key your cookie) ≡ 81
  length-signed = simp length-append (omega arith)

  pub length-greeting : length (greeting k id key your cookie sig) ≡ 145
  length-greeting = simp length-append (omega arith)

  pub record Fields : Type 0 where
    pub id_field : substr 1 16 (greeting k id key your cookie sig) ≡ id
    pub key_field : substr 17 32 (greeting k id key your cookie sig) ≡ key
    pub your_field : substr 49 16 (greeting k id key your cookie sig) ≡ your
    pub cookie_field : substr 65 16 (greeting k id key your cookie sig) ≡ cookie
    pub sig_field : substr 81 64 (greeting k id key your cookie sig) ≡ sig
    pub signed_field :
        substr 0 81 (greeting k id key your cookie sig) ≡ signed_part k id key your cookie

  pub greeting_fields : Fields
  greeting_fields =
      let whole = greeting k id key your cookie sig in
      record {
        id_field =
            substr_field 1 16 whole (k ∷ []) id (key ++ (your ++ (cookie ++ sig)))
              (simp append_assoc) refl hid;
        key_field =
            substr_field 17 32 whole (k ∷ id) key (your ++ (cookie ++ sig)) (simp append_assoc)
              (omega arith) hkey;
        your_field =
            substr_field 49 16 whole (k ∷ (id ++ key)) your (cookie ++ sig) (simp append_assoc)
              (simp length-append (omega arith)) hyour;
        cookie_field =
            substr_field 65 16 whole (k ∷ (id ++ (key ++ your))) cookie sig (simp append_assoc)
              (simp length-append (omega arith)) hcookie;
        sig_field =
            substr_field 81 64 whole (signed_part k id key your cookie) sig []
              (simp (append_assoc, append-nil)) length-signed hsig;
        signed_field =
            take_field 81 whole (signed_part k id key your cookie) sig refl length-signed;
      }
