-- ===== src/Backlinks/Mongo/Preflight.antt =====
-- mongo_client.py: when the checks that come before the read of the document accept a batch.
use mifolyo.Base.{
  ◌+◌, ◌≤◌, ◌≡◌, ◌≢◌, refl, Bool, true, none, List, [], ◌∷◌, arith, length, sum_of, All, suc,
}
use mifolyo.Base.Texts.{Text}
use mifolyo.Backlinks.Mongo.{
  insert_unique, sorted_set, encoded_length, url_ok, all_ok, BatchLimits, preflight,
}

insert_unique_sizes :
    (t : Text) (us : List Text)
    → (length (insert_unique t us) ≤ suc (length us))
      × (1 ≤ length (insert_unique t us))
      × (sum_of encoded_length (insert_unique t us) ≤ encoded_length t + sum_of encoded_length us)
unfolding insert_unique
insert_unique_sizes t [] = (omega arith, omega arith, omega arith)
insert_unique_sizes t (u ∷ us) = ground (arith, insert_unique_sizes t us)

-- A set has no more members and no more bytes than the list it is made of.
sorted_set_sizes :
    (us : List Text)
    → (length (sorted_set us) ≤ length us)
      × (sum_of encoded_length (sorted_set us) ≤ sum_of encoded_length us)
unfolding sorted_set
sorted_set_sizes [] = (omega arith, omega arith)
sorted_set_sizes (u ∷ us) =
    let (a, b) = sorted_set_sizes us in
    let (x, y, z) = insert_unique_sizes u (sorted_set us) in
    (omega (arith, a, x), omega (arith, b, z))

sorted_set_nonempty : (us : List Text) → us ≢ [] → 1 ≤ length (sorted_set us)
unfolding sorted_set
sorted_set_nonempty [] h = absurd (h refl)
sorted_set_nonempty (u ∷ us) h = (insert_unique_sizes u (sorted_set us)).1

module _ (validate_canonical : Text → Bool) where
  insert_unique-all_ok :
      (t : Text) (us : List Text)
      → url_ok validate_canonical t ≡ true
      → all_ok validate_canonical us ≡ true
      → all_ok validate_canonical (insert_unique t us) ≡ true
  unfolding insert_unique all_ok
  insert_unique-all_ok t [] h a = rw h refl
  insert_unique-all_ok t (u ∷ us) h a = ground (arith, insert_unique-all_ok t us h)

  sorted_set-all_ok :
      (us : List Text)
      → All (λ u. url_ok validate_canonical u ≡ true) us
      → all_ok validate_canonical (sorted_set us) ≡ true
  unfolding sorted_set all_ok
  sorted_set-all_ok [] h = refl
  sorted_set-all_ok (u ∷ us) h =
      insert_unique-all_ok u (sorted_set us) h.0 (sorted_set-all_ok us h.1)

  pub preflight_accepts :
      (l : BatchLimits) (target : Text) (us : List Text)
      → url_ok validate_canonical target ≡ true
      → All (λ u. url_ok validate_canonical u ≡ true) us
      → us ≢ []
      → length us ≤ l.max_members
      → sum_of encoded_length us ≤ l.max_batch_url_bytes
      → preflight validate_canonical l target (sorted_set us) ≡ none
  unfolding preflight
  preflight_accepts l target us t a nonempty members bytes = ground (
    arith,
    t,
    sorted_set-all_ok us a,
    sorted_set_sizes us,
    sorted_set_nonempty us nonempty,
    members,
    bytes,
  )
