-- ===== src/Fenced/Keys.antt =====
-- The Redis keys of immutable publications: a prefix, a publication id and the URL in Base64, as
-- services/indexer/data/redis_client.py and services/image-indexer/data/redis_client.py read them.
pub mod Laws
use mifolyo.Base.{
  ◌≡◌, refl, sym, ap, ◌∙◌, subst, ◌⊎◌, inl, inr, ◌↔◌, ◌≢◌, Bool, true, false, not, ◌&&◌, ◌||◌,
  Option, none, some,
}
use mifolyo.Base.{
  List, [], ◌∷◌, ◌++◌, Mem, map, ℕ, zero, suc, ◌+◌, ◌-◌, ◌*◌, ◌/◌, ◌≤◌, ◌<◌, min, String, arith,
}
use mifolyo.Base.{
  All, length, length-append, take, drop, ltb, leb, ◌==◌, if◌then◌else◌, Bool-cases, Option-cases,
}
use mifolyo.Base.Texts.{Bytes, Text, codes, same, same→eq, same_refl, same_iff, starts_with}
use mifolyo.Base.Dict.{Dict, lookup, insert, remove}
use mifolyo.Base.Decimal.{str, int_of, int_of-str, str_injective, is_canonical, is_canonical-str}
use mifolyo.Base.Utf8.{decode}
use mifolyo.Base.Base64.{encode64, decode64}

abbrev pub colon : ℕ
colon = 58

abbrev pub max_canonical_url_bytes : ℕ
max_canonical_url_bytes = 2048

abbrev pub max_encoded_url_bytes : ℕ
max_encoded_url_bytes = (max_canonical_url_bytes * 4 + 2) / 3

abbrev pub before : ℕ → Option (Text × Text) → Option (Text × Text)
before c none = none
before c (some (a, b)) = some (c ∷ a, b)

-- The texts before and after the first colon.
unfoldable pub cut : Text → Option (Text × Text)
cut [] = none
cut (c ∷ t) = let rest = cut t in if c == colon then some ([], t) else before c rest

abbrev pub is_empty : Text → Bool
is_empty [] = true
is_empty (_ ∷ _) = false

unfoldable pub all_hex : Text → Bool
all_hex [] = true
all_hex (c ∷ t) = ((leb 48 c && leb c 57) || (leb 97 c && leb c 102)) && all_hex t

-- `PUBLICATION_ID_PATTERN.fullmatch(text)`
unfoldable pub is_publication_id : Text → Bool
is_publication_id t = length t == 64 && all_hex t

unfoldable pub is_ascii : Text → Bool
is_ascii [] = true
is_ascii (c ∷ t) = ltb c 128 && is_ascii t

-- The URL is not empty, and its bytes are encoded in the one canonical way.
abbrev pub canonical : Text → Bytes → Option Text → Option Text
canonical encoded raw none = none
canonical encoded raw (some url) =
    if is_empty url || not (same (encode64 raw) encoded) then none else some url

abbrev pub decoded : Text → Option Bytes → Option Text
decoded encoded none = none
decoded encoded (some raw) =
    if ltb max_canonical_url_bytes (length raw) then none else canonical encoded raw (decode raw)

unfoldable pub decode_url : Text → Option Text
decode_url encoded =
    if is_empty encoded || (ltb max_encoded_url_bytes (length encoded) || not (is_ascii encoded))
    then none
    else decoded encoded (decode64 encoded)

abbrev pub page_prefix : Text
page_prefix = codes "page_data"

abbrev pub outlinks_prefix : Text
outlinks_prefix = codes "outlinks"

abbrev pub page_images_prefix : Text
page_images_prefix = codes "page_images"

abbrev pub image_prefix : Text
image_prefix = codes "image_data"

-- `f"{prefix}:{publication_id}:{encoded_url}"`
abbrev pub key_of : Text → Text → Text → Text
key_of prefix id encoded = prefix ++ (colon ∷ (id ++ (colon ∷ encoded)))

-- The publication id and the encoded URL of a key with the prefix.
abbrev pub parts_of : Option (Text × Text) → Option (Text × Text)
parts_of none = none
parts_of (some (id, encoded)) = if is_publication_id id then some (id, encoded) else none

abbrev pub headed : Text → Option (Text × Text) → Option (Text × Text)
headed prefix none = none
headed prefix (some (head, rest)) = if same head prefix then parts_of (cut rest) else none

unfoldable pub identity_of : Text → Text → Option (Text × Text)
identity_of prefix key = headed prefix (cut key)

abbrev pub with_url : Text → Text → Option Text → Option (Text × Text × Text)
with_url id encoded none = none
with_url id encoded (some url) = some (id, url, encoded)

abbrev pub read_parts : Option (Text × Text) → Option (Text × Text × Text)
read_parts none = none
read_parts (some (id, encoded)) = with_url id encoded (decode_url encoded)

-- The publication id, the URL and its encoding; `none` stands for InvalidPublicationKey or
-- InvalidImageWork.
unfoldable pub parse_key : Text → Text → Option (Text × Text × Text)
parse_key prefix key = read_parts (identity_of prefix key)
