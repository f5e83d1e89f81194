-- ===== src/Backlinks/Tests/Memory.antt =====
-- Datastores in memory, which behave as the processor relies on.
use mifolyo.Base.{
  ℕ, zero, suc, ◌-◌, ◌+◌, ◌≡◌, ◌⊎◌, inl, inr, refl, sym, ◌∙◌, subst, Bool, true, false, ◌||◌,
  Option, none, some, List, [], ◌∷◌, ◌++◌, map, arith, length, Bool-cases, if◌then◌else◌,
}
use mifolyo.Base.Texts.{Bytes, Text, same, same→eq, same_refl, contains}
use mifolyo.Base.Dict
use mifolyo.Base.Dict.{Dict, lookup-insert}
use mifolyo.Backlinks.Datastore.{
  Datastore, RedisReply, value, KeyType, none_type, set_type, Item, str, not_str, Links, absent,
  not_list, list, Document, found, InsertReply, inserted, insert_duplicate, BulkReply, written,
  Keeps, IsReliable, has_item, has_link,
}
use mifolyo.Backlinks.Datastore.Laws.{Keeps-refl}

-- `polls` counts how often the stop event is read before it is set.
pub record Memory : Type 0 where
  pub sets : Dict (List Bytes)
  pub docs : Dict Document
  pub polls : ℕ

abbrev pub members_at : Option (List Bytes) → List Bytes
members_at none = []
members_at (some ms) = ms

unfoldable pub without : List Bytes → List Bytes → List Bytes
without ms [] = []
without ms (x ∷ xs) = let rest = without ms xs in if contains x ms then rest else x ∷ rest

unfoldable pub keys_of : Dict (List Bytes) → List Bytes
keys_of [] = []
keys_of ((k, ms) ∷ s) = k ∷ keys_of s

abbrev pub links_at : Option Document → Links
links_at none = absent
links_at (some x) = x.links

-- `$addToSet`
unfoldable pub add_links : List Text → Links → Links
add_links us (list items) = list (items ++ map str us)
add_links us _ = list (map str us)

abbrev pub pending : Memory → Bytes → Bytes → Bool
pending w k m = contains m (members_at (Dict.lookup k w.sets))

abbrev pub stored : Memory → Text → Text → Bool
stored w t u = has_link u (links_at (Dict.lookup t w.docs))

poll : Memory → Bool × Memory
poll w = elim w.polls [ zero ↦ (true, w) | suc n ↦ (false, record w { polls = n }) ]

type_of : Option (List Bytes) → KeyType
type_of none = none_type
type_of (some ms) = set_type

remove : Bytes → List Bytes → Memory → RedisReply ℕ × Memory
remove k ms w =
    let old = members_at (Dict.lookup k w.sets) in
    (
      value (length old - length (without ms old)),
      record w { sets = Dict.insert k (without ms old) w.sets },
    )

insert_new : Document → Memory → Option Document → InsertReply × Memory
insert_new x w none = (inserted true, record w { docs = Dict.insert x.id x w.docs })
insert_new x w (some y) = (insert_duplicate, w)

update_at : Text → List Text → Memory → Option Document → BulkReply × Memory
update_at t us w none = (written true 0 0, w)
update_at t us w (some y) = (
  written true 1 0,
  record w { docs = Dict.insert t (record y { links = add_links us y.links }) w.docs },
)

unfoldable pub memory : Datastore Memory
unfolding poll type_of remove insert_new update_at keys_of without add_links
memory = record {
  is_set = poll;
  scan = λ c h w. (value (0, keys_of w.sets), w);
  key_type = λ k w. (value (type_of (Dict.lookup k w.sets)), w);
  sscan = λ k c h w. (value (0, members_at (Dict.lookup k w.sets)), w);
  srem = remove;
  find_one = λ t w. (found (Dict.lookup t w.docs), w);
  insert_one = λ x w. insert_new x w (Dict.lookup x.id w.docs);
  bulk_write = λ t x us w. update_at t us w (Dict.lookup t w.docs);
  bson_size = λ x. some 100;
  wait = λ n w. w;
}

contains-without :
    (m : Bytes) (ms xs : List Bytes)
    → contains m xs ≡ true
    → (contains m (without ms xs) ≡ true) ⊎ (contains m ms ≡ true)
unfolding contains without
contains-without m ms [] h = cc
contains-without m ms (x ∷ xs) h = elim (Bool-cases (contains m ms)) [
  | inl y ↦ inr y
  | inr y ↦ elim (Bool-cases (same x m)) [
    | inl e ↦
        let x_out : contains x ms ≡ false =
          subst (λ z. contains z ms ≡ false) (sym (same→eq x m e)) y in
        inl (ground arith)
    | inr e ↦ elim (contains-without m ms xs (ground arith)) [
      | inl k ↦ inl (ground arith)
      | inr k ↦ inr k
    ]
  ]
]

has_item-append :
    (u : Text) (xs ys : List Item) → has_item u (xs ++ ys) ≡ (has_item u xs || has_item u ys)
unfolding has_item
has_item-append u [] ys = refl
has_item-append u (str t ∷ xs) ys = ground (arith, has_item-append u xs ys)
has_item-append u (not_str ∷ xs) ys = has_item-append u xs ys

has_item-map : (u : Text) (us : List Text) → has_item u (map str us) ≡ contains u us
unfolding has_item contains
has_item-map u [] = refl
has_item-map u (t ∷ us) = ground (arith, has_item-map u us)

has_link-add_links :
    (u : Text) (us : List Text) (x : Links)
    → has_link u (add_links us x) ≡ (has_link u x || contains u us)
unfolding add_links
has_link-add_links u us (list items) =
    ground (arith, has_item-append u items (map str us), has_item-map u us)
has_link-add_links u us absent = has_item-map u us
has_link-add_links u us not_list = has_item-map u us

same_world : (w w' : Memory) → w.sets ≡ w'.sets → w.docs ≡ w'.docs → Keeps pending stored w w'
same_world w w' e h = record {
  pending_kept = λ k m p. subst (λ s. contains m (members_at (Dict.lookup k s)) ≡ true) e p;
  stored_kept = λ t u p. subst (λ s. has_link u (links_at (Dict.lookup t s)) ≡ true) h p;
}

put_document :
    (t : Text) (x : Document) (w : Memory)
    → ((u : Text) → stored w t u ≡ true → has_link u x.links ≡ true)
    → Keeps pending stored w (record w { docs = Dict.insert t x w.docs })
put_document t x w more = record {
  pending_kept = λ k m p. p;
  stored_kept = λ s u p. rw (lookup-insert t s x w.docs) (at s u p);
}
  where
    at :
        (s u : Text)
        → stored w s u ≡ true
        → has_link u (links_at (if same t s then some x else Dict.lookup s w.docs)) ≡ true
    at s u p = elim (Bool-cases (same t s)) [
      | inl e ↦ rw e (more u (subst (λ z. stored w z u ≡ true) (sym (same→eq t s e)) p))
      | inr e ↦ rw e p
    ]

insert_new-Keeps :
    (x : Document) (w : Memory) (o : Option Document)
    → Dict.lookup x.id w.docs ≡ o
    → Keeps pending stored w (insert_new x w o).1
unfolding insert_new
insert_new-Keeps x w none e = put_document x.id x w (λ u p.
    let q : has_link u absent ≡ true = subst (λ z. has_link u (links_at z) ≡ true) e p in cc)
insert_new-Keeps x w (some y) e = Keeps-refl w

update_at-Keeps :
    (t : Text) (us : List Text) (w : Memory) (o : Option Document)
    → Dict.lookup t w.docs ≡ o
    → Keeps pending stored w (update_at t us w o).1
unfolding update_at
update_at-Keeps t us w none e = Keeps-refl w
update_at-Keeps t us w (some y) e =
    put_document t (record y { links = add_links us y.links }) w
      (λ u p.
        let q : has_link u y.links ≡ true = subst (λ z. has_link u (links_at z) ≡ true) e p in
        rw (has_link-add_links u us y.links, q) refl)

insert_new-stores :
    (x : Document) (w : Memory) (o : Option Document) (u : Text)
    → (insert_new x w o).0 ≡ inserted true
    → has_link u x.links ≡ true
    → stored (insert_new x w o).1 x.id u ≡ true
unfolding insert_new
insert_new-stores x w none u h k = rw (lookup-insert x.id x.id x w.docs, same_refl x.id) k
insert_new-stores x w (some y) u h k = cc

update_at-stores :
    (t : Text) (us : List Text) (w : Memory) (o : Option Document) (u : Text) (n m : ℕ)
    → (update_at t us w o).0 ≡ written true n m
    → n + m ≡ 1
    → contains u us ≡ true
    → stored (update_at t us w o).1 t u ≡ true
unfolding update_at
update_at-stores t us w none u n m h e c = ground arith
update_at-stores t us w (some y) u n m h e c =
    rw (lookup-insert t t (record y { links = add_links us y.links }) w.docs, same_refl t)
      (has_link-add_links u us y.links ∙ rw c (or-true (has_link u y.links)))
  where
    or-true : (b : Bool) → (b || true) ≡ true
    or-true true = refl
    or-true false = refl

remove-pending :
    (k : Bytes) (ms : List Bytes) (w : Memory) (j m : Bytes)
    → pending w j m ≡ true
    → (pending (remove k ms w).1 j m ≡ true) ⊎ ((same j k ≡ true) × (contains m ms ≡ true))
unfolding remove
remove-pending k ms w j m p = elim (Bool-cases (same k j)) [
  | inr e ↦ inl (rw (lookup-insert k j _ w.sets, e) p)
  | inl e ↦ elim (contains-without m ms (members_at (Dict.lookup k w.sets)) (here e)) [
    | inl c ↦ inl (rw (lookup-insert k j _ w.sets, e) c)
    | inr c ↦ inr (subst (λ z. same z k ≡ true) (same→eq k j e) (same_refl k), c)
  ]
]
  where
    here : same k j ≡ true → contains m (members_at (Dict.lookup k w.sets)) ≡ true
    here e =
        subst (λ z. contains m (members_at (Dict.lookup z w.sets)) ≡ true) (sym (same→eq k j e)) p

pub memory-IsReliable : IsReliable pending stored memory
unfolding memory
memory-IsReliable = record {
  is_set_keeps = poll_keeps;
  scan_keeps = λ c h w. Keeps-refl w;
  key_type_keeps = λ k w. Keeps-refl w;
  sscan_keeps = λ k c h w. Keeps-refl w;
  find_one_keeps = λ t w. Keeps-refl w;
  insert_one_keeps = λ x w. insert_new-Keeps x w (Dict.lookup x.id w.docs) refl;
  bulk_write_keeps = λ t x us w. update_at-Keeps t us w (Dict.lookup t w.docs) refl;
  wait_keeps = λ n w. Keeps-refl w;
  srem_stored = λ k ms w t u h. h;
  srem_pending = remove-pending;
  insert_stores = λ x w u h k. insert_new-stores x w (Dict.lookup x.id w.docs) u h k;
  bulk_write_stores =
      λ t x us w u n m h e c. update_at-stores t us w (Dict.lookup t w.docs) u n m h e c;
}
  where
    poll_keeps : (w : Memory) → Keeps pending stored w (poll w).1
    poll_keeps w = ground (arith, same_world w (poll w).1)
