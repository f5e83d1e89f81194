-- ===== src/Backlinks/Mongo/Sources.antt =====
-- mongo_client.py: `sorted(set(source_urls))` and the links that a new document gets.
use mifolyo.Base.{◌≡◌, refl, true, false, ◌||◌, List, [], ◌∷◌, map, ap, arith}
use mifolyo.Base.Texts.{Text, same, same_iff, less, contains}
use mifolyo.Backlinks.Datastore.{str, has_item}
use mifolyo.Backlinks.Mongo.{insert_unique, sorted_set, new_sources}

contains-insert_unique :
    (u t : Text) (us : List Text) → contains u (insert_unique t us) ≡ (same t u || contains u us)
unfolding insert_unique contains
contains-insert_unique u t [] = refl
contains-insert_unique u t (x ∷ us) =
    ground (arith, same_iff x t, same_iff x u, same_iff t u, contains-insert_unique u t us)

pub contains-sorted_set : (u : Text) (us : List Text) → contains u (sorted_set us) ≡ contains u us
unfolding sorted_set contains
contains-sorted_set u [] = refl
contains-sorted_set u (x ∷ us) =
    ground (arith, contains-insert_unique u x (sorted_set us), contains-sorted_set u us)

-- Strictly increasing: sorted, and without duplicates.
abbrev pub Below : Text → List Text → Type 0
Below t [] = Unit {0}
Below t (u ∷ us) = less t u ≡ true

abbrev pub IsIncreasing : List Text → Type 0
IsIncreasing [] = Unit {0}
IsIncreasing (t ∷ ts) = Below t ts × IsIncreasing ts

less_total : (a b : Text) → same b a ≡ false → less a b ≡ false → less b a ≡ true
unfolding less same
less_total [] [] h k = cc
less_total [] (b ∷ bs) h k = cc
less_total (a ∷ as_) [] h k = refl
less_total (a ∷ as_) (b ∷ bs) h k = ground (arith, less_total as_ bs)

Below-insert_unique :
    (x t : Text) (us : List Text) → less x t ≡ true → Below x us → Below x (insert_unique t us)
unfolding insert_unique
Below-insert_unique x t [] h b = h
Below-insert_unique x t (u ∷ us) h b = ground arith

insert_unique-IsIncreasing :
    (t : Text) (us : List Text) → IsIncreasing us → IsIncreasing (insert_unique t us)
unfolding insert_unique
insert_unique-IsIncreasing t [] h = (tt, tt)
insert_unique-IsIncreasing t (u ∷ us) h =
    ground (arith, less_total t u, Below-insert_unique u t us, insert_unique-IsIncreasing t us h.1)

sorted_set-IsIncreasing : (us : List Text) → IsIncreasing (sorted_set us)
unfolding sorted_set
sorted_set-IsIncreasing [] = tt
sorted_set-IsIncreasing (u ∷ us) =
    insert_unique-IsIncreasing u (sorted_set us) (sorted_set-IsIncreasing us)

-- The sources of a batch are sorted, without duplicates, and the same texts as were given.
pub sorted_set_lem :
    (us : List Text)
    → IsIncreasing (sorted_set us) × ((u : Text) → contains u (sorted_set us) ≡ contains u us)
sorted_set_lem us = (sorted_set-IsIncreasing us, λ u. contains-sorted_set u us)

pub has_item-map-str : (u : Text) (us : List Text) → has_item u (map str us) ≡ contains u us
unfolding has_item contains
has_item-map-str u [] = refl
has_item-map-str u (x ∷ us) = ground (arith, has_item-map-str u us)

pub new_sources-nil : (us : List Text) → new_sources [] us ≡ us
unfolding new_sources contains
new_sources-nil [] = refl
new_sources-nil (u ∷ us) = ap (λ (vs : List Text). u ∷ vs) (new_sources-nil us)
