-- ===== src/Image/Mongo/Written.antt =====
-- The batches of _bulk_write_current and of the image updates in services/image-indexer/data/mongo_client.py.
use mathlib.Core.List.{append_assoc}
use mifolyo.Base.{◌≡◌, ◌≢◌, refl, sym, ap, subst, Bool, true, false}
use mifolyo.Base.{List, [], ◌∷◌, ◌++◌, ℕ, zero, suc, ◌≤◌, arith}
use mifolyo.Base.{length, take, drop, ltb}
use mifolyo.Base.Texts.{Text}
use mifolyo.Fenced.Session.{ok, Session, Exec, pure}
use mifolyo.Fenced.Session.Inversion.{true_inv, value_eq, state_eq}
use mifolyo.Image.Mongo.{
  ImageUpdate, WordUpdate, Collections, mongo_batch_size, slices, and_then, publication_is_current,
  confirmed, bulk_write_current, write_slices,
}

take-drop : {A : Type 0} (n : ℕ) (xs : List A) → take n xs ++ drop n xs ≡ xs
take-drop zero xs = refl
take-drop (suc n) [] = refl
take-drop (suc n) (x ∷ xs) = ap (λ ys. x ∷ ys) (take-drop n xs)

length-drop : {A : Type 0} (n : ℕ) (xs : List A) → length (drop n xs) ≤ length xs
length-drop zero xs = omega arith
length-drop (suc n) [] = omega arith
length-drop (suc n) (x ∷ xs) = omega (arith, length-drop n xs)

module _ {W : Type 0} where
  pub true_not : (s t : Session W) → pure {W = W} false s ≢ (ok true, t)
  true_not s t h = true_false (sym (value_eq false true s t h))
    where
      true_false : true ≢ false
      true_false e = cc

  pub and_then_inv :
      (m n : Exec W Bool) (s t : Session W)
      → and_then m n s ≡ (ok true, t)
      → (u : Session W) × (m s ≡ (ok true, u)) × (n u ≡ (ok true, t))
  unfolding and_then
  and_then_inv m n s t h = true_inv m (pure false) n s true t (λ u. true_not u t) h

module _ {W U : Type 0} (current : Exec W Bool) (write : List U → Exec W Bool) where
  -- The updates were written in their order, in batches: before each batch the publication was found to
  -- be current, and each batch was acknowledged.
  pub data Wrote : List U → Session W → Session W → Type 0 where
    nothing_left : (s : Session W) → Wrote [] s s
    then_batch :
        (batch rest : List U) (s t u v : Session W)
        → current s ≡ (ok true, t)
        → write batch t ≡ (ok true, u)
        → Wrote rest u v
        → Wrote (batch ++ rest) s v

module _ {W : Type 0} (collections : Collections W) (connected : Bool) (page_url token : Text)
    (fence_epoch : ℕ) (owner_check : Exec W Bool) where
  abbrev current : Exec W Bool
  current = publication_is_current collections connected page_url token fence_epoch owner_check true

  pub slices-Wrote :
      (n : ℕ) (xs : List ImageUpdate) (s t : Session W)
      → length xs ≤ n
      → write_slices collections connected page_url token fence_epoch owner_check (slices n xs) s
        ≡ (ok true, t)
      → Wrote current collections.write_images xs s t
  unfolding write_slices slices confirmed
  slices-Wrote zero [] s t l h =
      subst (Wrote current collections.write_images [] s) (state_eq true true s t h)
        (nothing_left s)
  slices-Wrote zero (x ∷ xs) s t l h = absurd (omega (arith, l))
  slices-Wrote (suc n) [] s t l h =
      subst (Wrote current collections.write_images [] s) (state_eq true true s t h)
        (nothing_left s)
  slices-Wrote (suc n) (x ∷ xs) s t l h =
      let (v, a, b) = and_then_inv _ _ s t h in
      let (u, c, d) = and_then_inv current _ s v a in
      subst (λ ys. Wrote current collections.write_images ys s t)
        (take-drop mongo_batch_size (x ∷ xs))
        (then_batch (take mongo_batch_size (x ∷ xs)) (drop mongo_batch_size (x ∷ xs)) s u v t c d (
          slices-Wrote n (drop mongo_batch_size (x ∷ xs)) v t (omega (arith, l, length-drop 499 xs))
            b))

  pub bulk-Wrote :
      (batch operations : List WordUpdate) (s t : Session W)
      → bulk_write_current collections connected page_url token fence_epoch owner_check batch
          operations s
        ≡ (ok true, t)
      → Wrote current collections.write_words (batch ++ operations) s t
  unfolding bulk_write_current confirmed
  bulk-Wrote [] [] s t h =
      subst (Wrote current collections.write_words [] s) (state_eq true true s t h) (nothing_left s)
  bulk-Wrote (x ∷ batch) [] s t h =
      let (u, c, d) = and_then_inv current _ s t h in
      then_batch (x ∷ batch) [] s u t t c d (nothing_left t)
  bulk-Wrote batch (x ∷ xs) s t h =
      subst (λ ys. Wrote current collections.write_words ys s t) (append_assoc batch (x ∷ []) xs)
        (go (ltb (length (batch ++ (x ∷ []))) mongo_batch_size)
          (bulk-Wrote (batch ++ (x ∷ [])) xs s t) (λ u. bulk-Wrote [] xs u t) h)
    where
      rest : List WordUpdate → Exec W Bool
      rest b = bulk_write_current collections connected page_url token fence_epoch owner_check b xs

      full : Exec W Bool
      full =
          and_then
            (confirmed collections connected page_url token fence_epoch owner_check
              (collections.write_words (batch ++ (x ∷ []))))
            (rest [])

      go :
          (b : Bool)
          → (rest (batch ++ (x ∷ [])) s ≡ (ok true, t)
              → Wrote current collections.write_words ((batch ++ (x ∷ [])) ++ xs) s t)
          → ((u : Session W)
              → rest [] u ≡ (ok true, t)
              → Wrote current collections.write_words xs u t)
          → (elim b as (λ _. Exec W Bool) [ true ↦ rest (batch ++ (x ∷ [])) | false ↦ full ]) s
            ≡ (ok true, t)
          → Wrote current collections.write_words ((batch ++ (x ∷ [])) ++ xs) s t
      go true f g q = f q
      go false f g q =
          let (v, a, b) = and_then_inv _ (rest []) s t q in
          let (u, c, d) = and_then_inv current _ s v a in
          then_batch (batch ++ (x ∷ [])) xs s u v t c d (g v b)
