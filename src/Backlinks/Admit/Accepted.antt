-- ===== src/Backlinks/Admit/Accepted.antt =====
-- `_admit_members` against mongo_client.py: the client's own checks accept every admitted batch.
use mifolyo.Base.{
  ◌≤◌, ◌≡◌, ◌≢◌, refl, Bool, true, none, some, List, [], ◌∷◌, arith, length, length-map, sum_of,
  All,
}
use mifolyo.Base.Texts.{Bytes, Text}
use mifolyo.Base.Utf8.{decode, encode}
use mifolyo.Base.Utf8.Roundtrip.{encode-decode}
use mifolyo.Backlinks.Config.{ProcessingLimits, max_canonical_url_bytes}
use mifolyo.Backlinks.Keys.{BacklinkMember, valid, parse_backlink_key, parse_backlink_member}
use mifolyo.Backlinks.Keys.Target.{parse_backlink_key-IsTarget}
use mifolyo.Backlinks.Keys.Laws.{parse_backlink_member-IsMember}
use mifolyo.Backlinks.Mongo.{encoded_length, url_ok, preflight, sorted_set}
use mifolyo.Backlinks.Mongo.Preflight.{preflight_accepts}
use mifolyo.Backlinks.Batch.{urls}
use mifolyo.Backlinks.Admit.{admit_members}
use mifolyo.Backlinks.Admit.Bounds.{member_bytes, admit_members-Splits}
use mifolyo.Backlinks.Cycle.Visit.{batch_limits}

module _ (validate_canonical : Text → Bool) where
  decoded_ok :
      (raw : Bytes) (u : Text)
      → decode raw ≡ some u
      → length raw ≤ max_canonical_url_bytes
      → u ≢ []
      → validate_canonical u ≡ true
      → url_ok validate_canonical u ≡ true
  unfolding url_ok
  decoded_ok raw [] d s n c = absurd (n refl)
  decoded_ok raw (x ∷ u) d s n c =
      let e : encode (x ∷ u) ≡ some raw = encode-decode raw (x ∷ u) d in rw (e, c) (ground arith)

  encoded_length-some : (u : Text) (b : Bytes) → encode u ≡ some b → encoded_length u ≡ length b
  unfolding encoded_length
  encoded_length-some u b e = rw (e, encoded_length) refl

  members_ok :
      (ms : List BacklinkMember)
      → All (λ m. parse_backlink_member validate_canonical m.raw ≡ valid m) ms
      → All (λ u. url_ok validate_canonical u ≡ true) (urls ms)
        × (sum_of encoded_length (urls ms) ≡ member_bytes ms)
  members_ok [] h = (tt, refl)
  members_ok (m ∷ ms) h =
      let v = parse_backlink_member-IsMember validate_canonical m.raw m h.0 in
      let e : encode m.url ≡ some m.raw = encode-decode m.raw m.url v.decoded in
      let (ok_rest, sum_rest) = members_ok ms h.1 in
      (
        (decoded_ok m.raw m.url v.decoded v.short v.nonempty v.canonical, ok_rest),
        omega (arith, encoded_length-some m.url m.raw e, sum_rest),
      )

  -- `preflight` stands for the checks of `add_backlinks` before its first query. For a key that
  -- parses and any buffer, where a batch is admitted at all, they accept it under the processor's
  -- own limits: the processor never has a batch of its own refused by them.
  pub admit_members_accepted :
      (l : ProcessingLimits) (key : Bytes) (target : Text) (pending : List Bytes)
      → parse_backlink_key validate_canonical key ≡ valid target
      → (admit_members validate_canonical l pending).admitted ≢ []
      → preflight validate_canonical
          (batch_limits l)
          target
          (sorted_set (urls (admit_members validate_canonical l pending).admitted))
        ≡ none
  admit_members_accepted l key target pending k nonempty =
      let ms = (admit_members validate_canonical l pending).admitted in
      let (n, b, s) = admit_members-Splits validate_canonical l pending in
      let (urls_ok, bytes) = members_ok ms s.parsed in
      let t = parse_backlink_key-IsTarget validate_canonical key target k in
      preflight_accepts validate_canonical (batch_limits l) target (urls ms)
        (decoded_ok t.raw target t.decoded t.short t.nonempty t.canonical) urls_ok
        (some_urls ms nonempty)
        (omega (arith, s.within_members, length-map (λ (m : BacklinkMember). m.url) ms))
        (omega (arith, bytes, s.byte_sum, s.within_bytes))
    where
      some_urls : (ms : List BacklinkMember) → ms ≢ [] → urls ms ≢ []
      some_urls [] h = λ e. h refl
      some_urls (m ∷ ms) h = λ e. cc
