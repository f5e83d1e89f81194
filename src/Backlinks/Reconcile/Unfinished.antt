-- ===== src/Backlinks/Reconcile/Unfinished.antt =====
-- reconcile.py: a reading of the outlinks that ends with an exception.
use mifolyo.Base.{
  ℕ, ◌+◌, inl, inr, Bool, Bool-cases, Option, none, some, List, [], ◌∷◌, ◌==◌, if◌then◌else◌,
}
use mifolyo.Base.Texts.{Text}
use mifolyo.Backlinks.Datastore.{MongoError, Links, absent, not_list, list}
use mifolyo.Backlinks.Mongo.{sorted_set, strings}
use mifolyo.Backlinks.Reconcile.{
  EdgeDocument, Edges, done, edge, fails, ended, target_edges, listed_edges, document_edges,
  authoritative_edges, count_edges, CountReply,
}
use mifolyo.Backlinks.Reconcile.Observed.{AllEdges, IfOk, CountReply-cases}

-- A generator that ends with an exception.
abbrev pub Fails : Edges → Type 0
Fails done = ⊥
Fails (fails e) = Unit {0}
Fails (edge t s rest) = Fails rest

module _ (validate_canonical : Text → Bool) where
  target_edges-Fails :
      (s : Text) (ts : List Text) (rest : Edges)
      → Fails rest
      → Fails (target_edges validate_canonical s ts rest)
  unfolding target_edges
  target_edges-Fails s [] rest h = h
  target_edges-Fails s (t ∷ ts) rest h = elim (Bool-cases (validate_canonical t)) [
    | inl e ↦ rw e (target_edges-Fails s ts rest h)
    | inr e ↦ rw e tt
  ]

  listed_edges-Fails :
      (s : Text) (o : Option (List Text)) (rest : Edges)
      → Fails rest
      → Fails (listed_edges validate_canonical s o rest)
  unfolding listed_edges
  listed_edges-Fails s none rest h = tt
  listed_edges-Fails s (some ts) rest h = target_edges-Fails s (sorted_set ts) rest h

  document_edges-Fails :
      (o : Option Text) (x : Links) (rest : Edges)
      → Fails rest
      → Fails (document_edges validate_canonical o x rest)
  unfolding document_edges
  document_edges-Fails (some s) (list items) rest h = elim (Bool-cases (validate_canonical s)) [
    | inl e ↦ rw e (listed_edges-Fails s (strings items) rest h)
    | inr e ↦ rw e tt
  ]
  document_edges-Fails none x rest h = tt
  document_edges-Fails (some s) absent rest h = tt
  document_edges-Fails (some s) not_list rest h = tt

  pub authoritative_edges-Fails :
      (xs : List EdgeDocument) (e : MongoError)
      → Fails (authoritative_edges validate_canonical xs (some e))
  unfolding authoritative_edges ended
  authoritative_edges-Fails [] e = tt
  authoritative_edges-Fails (x ∷ xs) e =
      document_edges-Fails x.id x.links (authoritative_edges validate_canonical xs (some e))
        (authoritative_edges-Fails xs e)

pub Fails-AllEdges : (P : Text → Text → Type 0) (es : Edges) → Fails es → AllEdges P es → ⊥
Fails-AllEdges P done h a = h
Fails-AllEdges P (fails e) h a = a
Fails-AllEdges P (edge t s rest) h a = Fails-AllEdges P rest h a.1

pub count_edges-Fails :
    {W : Type 0} (has : Text → Text → W → CountReply × W) (es : Edges) (n m : ℕ) (w : W)
    → Fails es
    → IfOk (λ _. ⊥) (count_edges has es n m w).0
unfolding count_edges
count_edges-Fails has done n m w h = absurd h
count_edges-Fails has (fails e) n m w h = tt
count_edges-Fails has (edge t s rest) n m w h = elim (CountReply-cases (has t s w).0) [
  | inr (e, r) ↦ rw (r, count_edges) tt
  | inl (k, r) ↦
      rw (r, count_edges)
        (count_edges-Fails has rest (n + 1) (if k == 1 then m else m + 1) (has t s w).1 h)
]
