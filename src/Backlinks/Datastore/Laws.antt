-- ===== src/Backlinks/Datastore/Laws.antt =====
-- Observations of the datastores along a sequence of calls.
use mifolyo.Base.{Bool}
use mifolyo.Base.Texts.{Bytes, Text}
use mifolyo.Backlinks.Datastore.{Keeps}

module _ {W : Type 0} {pending : W → Bytes → Bytes → Bool} {stored : W → Text → Text → Bool} where
  pub Keeps-refl : (w : W) → Keeps pending stored w w
  Keeps-refl w = record { pending_kept = λ k m h. h; stored_kept = λ t u h. h }

  pub Keeps-trans :
      {u v w : W} → Keeps pending stored u v → Keeps pending stored v w → Keeps pending stored u w
  Keeps-trans a b = record {
    pending_kept = λ k m h. b.pending_kept k m (a.pending_kept k m h);
    stored_kept = λ t u h. b.stored_kept t u (a.stored_kept t u h);
  }
