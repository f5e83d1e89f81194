-- ===== src/Backlinks/Keys/Target.antt =====
-- redis_client.py: what `parse_backlink_key` promises of a target.
use mifolyo.Base.{
  String, ℕ, ◌+◌, ◌≤◌, ◌≡◌, ◌≢◌, Bool, true, none, some, Option, [], ◌∷◌, arith, length, drop, ltb,
  Bool-cases, inl, inr,
}
use mifolyo.Base.Texts.{Bytes, Text, starts_with}
use mifolyo.Base.Utf8.{decode, encode}
use mifolyo.Base.Utf8.Roundtrip.{encode-decode}
use mifolyo.Backlinks.Config.{backlink_key_prefix, max_canonical_url_bytes, max_backlink_key_bytes}
use mifolyo.Backlinks.Keys.{valid, invalid, checked, parse_backlink_key}

-- The bytes of a key after its prefix.
drop_short :
    (p xs : Bytes) (n : ℕ)
    → starts_with p xs ≡ true
    → length xs ≤ length p + n
    → length (drop (length p) xs) ≤ n
unfolding starts_with
drop_short [] xs n h s = omega (arith, s)
drop_short (b ∷ p) [] n h s = omega arith
drop_short (b ∷ p) (x ∷ xs) n h s = drop_short p xs n (ground arith) (omega (arith, s))

decode_nonempty : (b : ℕ) (bs : Bytes) (u : Text) → decode (b ∷ bs) ≡ some u → u ≢ []
unfolding encode
decode_nonempty b bs [] h = λ e. ground (arith, encode-decode (b ∷ bs) [] h)
decode_nonempty b bs (c ∷ u) h = λ e. cc

module _ (validate_canonical : Text → Bool) where
  pub record IsTarget (key : Bytes) (u : Text) : Type 0 where
    pub raw : Bytes
    pub decoded : decode raw ≡ some u
    pub short : length raw ≤ max_canonical_url_bytes
    pub nonempty : u ≢ []
    pub canonical : validate_canonical u ≡ true

  checked-valid :
      (o : Option Text) (u : Text) (a b : String)
      → checked validate_canonical o a b ≡ valid u
      → (o ≡ some u) × (validate_canonical u ≡ true)
  unfolding checked
  checked-valid none u a b h = cc
  checked-valid (some t) u a b h = ground arith

  rest-IsTarget :
      (key rest : Bytes) (u : Text)
      → length rest ≤ max_canonical_url_bytes
      → (elim rest [
        | [] ↦ invalid "target_key_invalid"
        | b ∷ bs ↦
            checked validate_canonical
              (decode (b ∷ bs))
              "target_key_invalid"
              "target_url_noncanonical"
      ])
        ≡ valid u
      → IsTarget key u
  rest-IsTarget key [] u s h = cc
  rest-IsTarget key (b ∷ bs) u s h =
      let (d, c) = checked-valid (decode (b ∷ bs)) u _ _ h in
      record {
        raw = b ∷ bs;
        decoded = d;
        short = s;
        nonempty = decode_nonempty b bs u d;
        canonical = c;
      }

  pub parse_backlink_key-IsTarget :
      (key : Bytes) (u : Text)
      → parse_backlink_key validate_canonical key ≡ valid u
      → IsTarget key u
  unfolding parse_backlink_key
  parse_backlink_key-IsTarget key u h = elim (Bool-cases (starts_with backlink_key_prefix key)) [
    | inr e ↦ absurd (ground arith)
    | inl e ↦ elim (Bool-cases (ltb max_backlink_key_bytes (length key))) [
      | inl f ↦ absurd (ground arith)
      | inr f ↦
          rest-IsTarget key (drop (length backlink_key_prefix) key) u
            (drop_short backlink_key_prefix key max_canonical_url_bytes e (ground arith))
            (ground arith)
    ]
  ]
