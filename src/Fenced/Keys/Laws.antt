-- ===== src/Fenced/Keys/Laws.antt =====
-- A publication key is read exactly when it is the one canonical key of its id and URL.
use mifolyo.Base.{
  ◌≡◌, refl, sym, ap, ◌∙◌, subst, Bool, true, false, not, ◌&&◌, ◌||◌, Option, none, some,
}
use mifolyo.Base.{[], ◌∷◌, ◌++◌, ℕ, ◌+◌, ◌*◌, ◌/◌, ◌%◌, ◌≤◌, ◌<◌, arith}
use mifolyo.Base.{All, length, ltb, ◌==◌, if◌then◌else◌}
use mifolyo.Base.Texts.{Bytes, Text, same, same→eq, same_refl}
use mifolyo.Base.{All, ==_iff}
use mifolyo.Base.Utf8.{decode, encode}
use mifolyo.Base.Utf8.Roundtrip.{encode-decode}
use mifolyo.Base.Base64.{encode64, decode64, decode64-encode64, length-encode64, letter}
use mifolyo.Fenced.Keys.{
  colon, before, cut, is_empty, all_hex, is_publication_id, is_ascii, canonical, decoded,
  decode_url, key_of, parts_of, headed, read_parts, identity_of, with_url, parse_key,
  max_encoded_url_bytes, max_canonical_url_bytes,
}

unfoldable pub no_colon : Text → Bool
no_colon [] = true
no_colon (c ∷ t) = not (c == colon) && no_colon t

cut-append : (a t : Text) → no_colon a ≡ true → cut (a ++ (colon ∷ t)) ≡ some (a, t)
unfolding no_colon cut
cut-append [] t h = refl
cut-append (c ∷ a) t h = ground (arith, cut-append a t)

at_colon :
    (c : ℕ) (k a t : Text)
    → c ≡ colon
    → ◌≡◌ {A = Option (Text × Text)} (some ([], k)) (some (a, t))
    → c ∷ k ≡ a ++ (colon ∷ t)
at_colon c k [] t e q = cc
at_colon c k (x ∷ a) t e q = cc

after :
    (c : ℕ) (k x y a t : Text)
    → k ≡ x ++ (colon ∷ y)
    → ◌≡◌ {A = Option (Text × Text)} (some (c ∷ x, y)) (some (a, t))
    → c ∷ k ≡ a ++ (colon ∷ t)
after c k x y [] t e q = cc
after c k x y (z ∷ a) t e q = cc

cut_inv : (k a t : Text) → cut k ≡ some (a, t) → k ≡ a ++ (colon ∷ t)
unfolding cut
cut_inv [] a t h = cc
cut_inv (c ∷ k) a t h = go (cut_inv k) (cut k) refl (c == colon) refl h
  where
    go :
        ((x y : Text) → cut k ≡ some (x, y) → k ≡ x ++ (colon ∷ y))
        → (o : Option (Text × Text)) → cut k ≡ o
        → (b : Bool) → (c == colon) ≡ b
        → (if b then some ([], k) else before c o) ≡ some (a, t)
        → c ∷ k ≡ a ++ (colon ∷ t)
    go ih o p true e q = at_colon c k a t ((==_iff c colon).0 e) q
    go ih none p false e q = cc
    go ih (some (x, y)) p false e q = after c k x y a t (ih x y p) q

hex_no_colon : (t : Text) → all_hex t ≡ true → no_colon t ≡ true
unfolding all_hex no_colon
hex_no_colon [] h = refl
hex_no_colon (c ∷ t) h = ground (arith, hex_no_colon t)

letter_ascii : (n : ℕ) → ltb (letter n) 128 ≡ true
unfolding letter
letter_ascii n = ground arith

encode64-ascii : (bs : Bytes) → is_ascii (encode64 bs) ≡ true
unfolding is_ascii encode64
encode64-ascii [] = refl
encode64-ascii (a ∷ []) = rw (letter_ascii (a / 4), letter_ascii (a % 4 * 16)) refl
encode64-ascii (a ∷ b ∷ []) =
    rw (letter_ascii (a / 4), letter_ascii (a % 4 * 16 + b / 16), letter_ascii (b % 16 * 4)) refl
encode64-ascii (a ∷ b ∷ c ∷ rest) =
    rw
      (
        letter_ascii (a / 4),
        letter_ascii (a % 4 * 16 + b / 16),
        letter_ascii (b % 16 * 4 + c / 64),
        letter_ascii (c % 64),
      )
      (encode64-ascii rest)

not_long : (n : ℕ) → n ≤ 2048 → ltb max_encoded_url_bytes ((n * 4 + 2) / 3) ≡ false
not_long n h = ground arith

some_text : (u v : Text) → some u ≡ some v → u ≡ v
some_text u v h = cc

encode64-nonempty :
    (raw : Bytes) (url : Text)
    → decode raw ≡ some url
    → is_empty url ≡ false
    → is_empty (encode64 raw) ≡ false
unfolding encode64 decode
encode64-nonempty [] [] d e = cc
encode64-nonempty [] (c ∷ t) d e = cc
encode64-nonempty (a ∷ []) url d e = refl
encode64-nonempty (a ∷ b ∷ []) url d e = refl
encode64-nonempty (a ∷ b ∷ c ∷ rest) url d e = refl

-- The encoding of at most 2048 bytes of UTF-8 is read back.
pub decode_url-encode64 :
    (raw : Bytes) (url : Text)
    → All (λ b. b < 256) raw
    → length raw ≤ 2048
    → decode raw ≡ some url
    → is_empty url ≡ false
    → decode_url (encode64 raw) ≡ some url
unfolding decode_url
decode_url-encode64 raw url h k d e =
    rw
      (
        encode64-nonempty raw url d e,
        encode64-ascii raw,
        length-encode64 raw,
        not_long (length raw) k,
        decode64-encode64 raw h,
        d,
        e,
        same_refl (encode64 raw),
      )
      (ground arith)

-- What a URL's encoding is: the canonical encoding of its bytes.
pub record IsEncoding (url encoded : Text) : Type 0 where
  pub raw : Bytes
  pub encodes : encoded ≡ encode64 raw
  pub decodes : decode raw ≡ some url
  pub short : length raw ≤ 2048
  pub nonempty : is_empty url ≡ false

decode_url_inv : (encoded url : Text) → decode_url encoded ≡ some url → IsEncoding url encoded
unfolding decode_url
decode_url_inv encoded url h =
    go (is_empty encoded || (ltb max_encoded_url_bytes (length encoded) || not (is_ascii encoded)))
      (decode64 encoded) h
  where
    third :
        (raw : Bytes)
        → length raw ≤ 2048
        → (o : Option Text) → decode raw ≡ o
        → canonical encoded raw o ≡ some url
        → IsEncoding url encoded
    third raw k none d q = cc
    third raw k (some u) d q = checked (is_empty u) refl (same (encode64 raw) encoded) refl q
      where
        checked :
            (b : Bool)
            → is_empty u ≡ b
            → (c : Bool) → same (encode64 raw) encoded ≡ c
            → (if b || not c then none else some u) ≡ some url
            → IsEncoding url encoded
        checked true p c r q = cc
        checked false p false r q = cc
        checked false p true r q = record {
          raw = raw;
          encodes = sym (same→eq (encode64 raw) encoded r);
          decodes = d ∙ q;
          short = k;
          nonempty = subst (λ x. is_empty x ≡ false) (some_text u url q) p;
        }

    second :
        (raw : Bytes) (b : Bool)
        → ltb max_canonical_url_bytes (length raw) ≡ b
        → (if b then none else canonical encoded raw (decode raw)) ≡ some url
        → IsEncoding url encoded
    second raw true e q = cc
    second raw false e q = third raw (ground (arith, e)) (decode raw) refl q

    go :
        (b : Bool) (o : Option Bytes)
        → (if b then none else decoded encoded o) ≡ some url
        → IsEncoding url encoded
    go true o q = cc
    go false none q = cc
    go false (some raw) q = second raw (ltb max_canonical_url_bytes (length raw)) refl q

same_parts :
    (p k id encoded t a b : Text)
    → t ≡ a ++ (colon ∷ b)
    → k ≡ p ++ (colon ∷ t)
    → is_publication_id a ≡ true
    → ◌≡◌ {A = Option (Text × Text)} (some (a, b)) (some (id, encoded))
    → (k ≡ key_of p id encoded) × (is_publication_id id ≡ true)
same_parts p k id encoded t a b e g r q = (cc, cc)

same_triple :
    (p k id url encoded a b u : Text)
    → k ≡ key_of p a b
    → IsEncoding u b
    → ◌≡◌ {A = Option (Text × Text × Text)} (some (a, u, b)) (some (id, url, encoded))
    → (k ≡ key_of p id encoded) × IsEncoding url encoded
same_triple p k id url encoded a b u e g q =
    (cc, subst (λ x. IsEncoding x encoded) (u_eq) (subst (IsEncoding u) b_eq g))
  where
    u_eq : u ≡ url
    u_eq = cc

    b_eq : b ≡ encoded
    b_eq = cc

identity_inv :
    (p k id encoded : Text)
    → identity_of p k ≡ some (id, encoded)
    → (k ≡ key_of p id encoded) × (is_publication_id id ≡ true)
unfolding identity_of
identity_inv p k id encoded h = go (cut k) refl h
  where
    third :
        (t a b : Text)
        → t ≡ a ++ (colon ∷ b)
        → k ≡ p ++ (colon ∷ t)
        → (c : Bool) → is_publication_id a ≡ c
        → if◌then◌else◌ {A = Option (Text × Text)} c (some (a, b)) none ≡ some (id, encoded)
        → (k ≡ key_of p id encoded) × (is_publication_id id ≡ true)
    third t a b e g true r q = same_parts p k id encoded t a b e g r q
    third t a b e g false r q = cc

    second :
        (t : Text) (o : Option (Text × Text))
        → cut t ≡ o
        → k ≡ p ++ (colon ∷ t)
        → parts_of o ≡ some (id, encoded)
        → (k ≡ key_of p id encoded) × (is_publication_id id ≡ true)
    second t none e g q = cc
    second t (some (a, b)) e g q = third t a b (cut_inv t a b e) g (is_publication_id a) refl q

    go :
        (o : Option (Text × Text))
        → cut k ≡ o
        → headed p o ≡ some (id, encoded)
        → (k ≡ key_of p id encoded) × (is_publication_id id ≡ true)
    go none e q = cc
    go (some (head, rest)) e q = first (same head p) refl q
      where
        first :
            (c : Bool)
            → same head p ≡ c
            → (if c then parts_of (cut rest) else none) ≡ some (id, encoded)
            → (k ≡ key_of p id encoded) × (is_publication_id id ≡ true)
        first true r q =
            second rest (cut rest) refl
              (subst (λ x. k ≡ x ++ (colon ∷ rest)) (same→eq head p r) (cut_inv k head rest e)) q
        first false r q = cc

-- A key that is read is the canonical key of what is read from it.
pub parse_key_inv :
    (p k id url encoded : Text)
    → parse_key p k ≡ some (id, url, encoded)
    → (k ≡ key_of p id encoded) × IsEncoding url encoded
unfolding parse_key
parse_key_inv p k id url encoded h = go (identity_of p k) refl h
  where
    second :
        (a b : Text)
        → identity_of p k ≡ some (a, b)
        → (o : Option Text) → decode_url b ≡ o
        → with_url a b o ≡ some (id, url, encoded)
        → (k ≡ key_of p id encoded) × IsEncoding url encoded
    second a b e none d q = cc
    second a b e (some u) d q =
        same_triple p k id url encoded a b u (identity_inv p k a b e).0 (decode_url_inv b u d) q

    go :
        (o : Option (Text × Text))
        → identity_of p k ≡ o
        → read_parts o ≡ some (id, url, encoded)
        → (k ≡ key_of p id encoded) × IsEncoding url encoded
    go none e q = cc
    go (some (a, b)) e q = second a b e (decode_url b) refl q

id_parts :
    (id encoded : Text)
    → is_publication_id id ≡ true
    → parts_of (cut (id ++ (colon ∷ encoded))) ≡ some (id, encoded)
unfolding is_publication_id
id_parts id encoded h =
    rw (cut-append id encoded (hex_no_colon id (all_of (length id == 64) (all_hex id) h)), h) refl
  where
    all_of : (a b : Bool) → (a && b) ≡ true → b ≡ true
    all_of true b h = h
    all_of false b h = cc

-- Writing and reading a key are inverse: the key made of a prefix without a colon, an id of 64
-- lower-case hexadecimal digits, and the Base64 form of at most 2048 bytes of UTF-8 that are not
-- empty is read back to the id, the URL and the encoding.
pub parse_key-key_of :
    (p id url : Text) (raw : Bytes)
    → no_colon p ≡ true
    → is_publication_id id ≡ true
    → All (λ b. b < 256) raw
    → length raw ≤ 2048
    → decode raw ≡ some url
    → is_empty url ≡ false
    → parse_key p (key_of p id (encode64 raw)) ≡ some (id, url, encode64 raw)
unfolding parse_key identity_of
parse_key-key_of p id url raw n i h k d e =
    ap read_parts identified ∙ ap (with_url id (encode64 raw)) (decode_url-encode64 raw url h k d e)
  where
    same_head : headed p (some (p, id ++ (colon ∷ encode64 raw))) ≡ some (id, encode64 raw)
    same_head = rw (same_refl p) (id_parts id (encode64 raw) i)

    identified : identity_of p (key_of p id (encode64 raw)) ≡ some (id, encode64 raw)
    identified = ap (headed p) (cut-append p (id ++ (colon ∷ encode64 raw)) n) ∙ same_head

-- A publication has one key: two keys with the same prefix that are read to the same id and the same
-- URL are equal.
pub parse_key_injective :
    (p j k id url a b : Text)
    → parse_key p j ≡ some (id, url, a)
    → parse_key p k ≡ some (id, url, b)
    → j ≡ k
parse_key_injective p j k id url a b x y =
    let f = parse_key_inv p j id url a x in
    let g = parse_key_inv p k id url b y in
    f.0
    ∙ ap (key_of p id) (
        f.1.encodes
        ∙ ap encode64 (
            one_raw f.1.raw g.1.raw (encode-decode f.1.raw url f.1.decodes)
              (encode-decode g.1.raw url g.1.decodes))
        ∙ sym g.1.encodes)
    ∙ sym g.0
  where
    one_raw : (r q : Bytes) → encode url ≡ some r → encode url ≡ some q → r ≡ q
    one_raw r q e f = cc
