-- ===== src/Backlinks/Reconcile/Observed.antt =====
-- reconcile.py: properties of all yielded edges, of results that are no exception, and what the
-- reconciler relies on of its queries.
use mifolyo.Base.{ℕ, ◌≡◌, ◌≢◌, ◌⊎◌, inl, inr, refl, Bool, true, false, none, List}
use mifolyo.Base.Texts.{Bytes, Text}
use mifolyo.Backlinks.Errors.{Result, ok, raise}
use mifolyo.Backlinks.Datastore.{Keeps, MongoError}
use mifolyo.Backlinks.Reconcile.{
  CountReply, counted, count_error, Collections, EdgeDocument, Edges, done, edge, fails,
}

-- The generator ends without an exception, and each edge that it yields has the property.
abbrev pub AllEdges : (Text → Text → Type 0) → Edges → Type 0
AllEdges P done = Unit {0}
AllEdges P (fails e) = ⊥
AllEdges P (edge t s rest) = P t s × AllEdges P rest

pub AllEdges-map :
    {P Q : Text → Text → Type 0} (es : Edges)
    → ((t s : Text) → P t s → Q t s)
    → AllEdges P es
    → AllEdges Q es
AllEdges-map done f h = tt
AllEdges-map (fails e) f h = h
AllEdges-map (edge t s rest) f h = (f t s h.0, AllEdges-map rest f h.1)

-- The property of a result, where it is no exception.
abbrev pub IfOk {ℓ} : {A : Type ℓ} → (A → Type 0) → Result A → Type 0
IfOk P (ok a) = P a
IfOk P (raise e) = Unit {0}

pub IfOk-and :
    {A : Type 0} {P Q R : A → Type 0} (r : Result A)
    → IfOk P r
    → IfOk Q r
    → ((a : A) → P a → Q a → R a)
    → IfOk R r
IfOk-and (ok a) p q f = f a p q
IfOk-and (raise e) p q f = tt

pub IfOk-map :
    {A : Type 0} {P R : A → Type 0} (r : Result A) → IfOk P r → ((a : A) → P a → R a) → IfOk R r
IfOk-map (ok a) p f = f a p
IfOk-map (raise e) p f = tt

pub CountReply-cases :
    (r : CountReply) → ((k : ℕ) × (r ≡ counted k)) ⊎ ((e : MongoError) × (r ≡ count_error e))
CountReply-cases (counted k) = inl (k, refl)
CountReply-cases (count_error e) = inr (e, refl)

-- While no other client writes outlinks or removes links: each complete reading of the outlinks
-- gives the same documents, a count of one is a stored link and any other count is none, and no
-- query removes anything.
pub record IsAccurate {W : Type 0} (pending : W → Bytes → Bytes → Bool)
    (stored : W → Text → Text → Bool) (documents : List EdgeDocument) (c : Collections W)
    : Type 0 where
  pub outlinks_read :
      (w : W) → (c.find_outlinks w).0.failure ≡ none → (c.find_outlinks w).0.documents ≡ documents
  pub found_stored :
      (t s : Text) (w : W) → (c.count_backlinks t s w).0 ≡ counted 1 → stored w t s ≡ true
  pub missing_unstored :
      (t s : Text) (w : W) (k : ℕ)
      → (c.count_backlinks t s w).0 ≡ counted k
      → k ≢ 1
      → stored w t s ≡ false
  pub find_outlinks_keeps : (w : W) → Keeps pending stored w (c.find_outlinks w).1
  pub find_backlinks_keeps : (w : W) → Keeps pending stored w (c.find_backlinks w).1
  pub count_backlinks_keeps :
      (t s : Text) (w : W) → Keeps pending stored w (c.count_backlinks t s w).1
  pub count_outlinks_keeps :
      (s t : Text) (w : W) → Keeps pending stored w (c.count_outlinks s t w).1
