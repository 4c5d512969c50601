-- ===== src/Store/Gc/Mark.antt =====
-- The mark loop and reachability.
use mathlib.Core.Path.{subst}
use tig.Prelude.{
  ℕ, zero, suc, ◌≡◌, refl, ◌==◌, eq_iff, eq_refl, contains, true, false, some, List, [], ◌∷◌, ◌⊎◌,
  inl, inr, Result, ok, err, arith, Bool-cases,
}
use tig.Core.Object.{Hash}
use tig.Core.Wire.{Wire}
use tig.Store.Error.{StoreError}
use tig.Store.Repo.{Repo}
use tig.Store.Gc.{expand, mark}
use tig.Store.Gc.Reach.{Refers, Reach, root, step, expand_keeps, expand_complete, expand_sound}

-- One turn of the loop at a hash that is not yet marked.
data Turn (w : Wire) (repo : Repo) (fuel : ℕ) (h : Hash) (queue marked result : List Hash)
    : Type 0 where
  again :
      contains h marked ≡ true
      → mark w fuel repo queue marked ≡ some (ok result)
      → Turn w repo fuel h queue marked result
  fresh :
      (queue' : List Hash)
      → contains h marked ≡ false
      → expand w repo h queue ≡ ok queue'
      → mark w fuel repo queue' (h ∷ marked) ≡ some (ok result)
      → Turn w repo fuel h queue marked result

module _ (w : Wire) (repo : Repo) (result : List Hash) where
  Turn-of_mark :
      (fuel : ℕ) (h : Hash) (queue marked : List Hash)
      → mark w (suc fuel) repo (h ∷ queue) marked ≡ some (ok result)
      → Turn w repo fuel h queue marked result
  unfolding mark
  Turn-of_mark fuel h queue marked e = elim (Bool-cases (contains h marked)) [
    | inl old ↦ again old (ground arith)
    | inr new ↦ by_expand (expand w repo h queue) refl new
  ]
    where
      by_expand :
          (r : Result StoreError (List Hash))
          → expand w repo h queue ≡ r
          → contains h marked ≡ false
          → Turn w repo fuel h queue marked result
      by_expand (ok queue') x new = fresh queue' new x (ground arith)
      by_expand (err s) x new = ground arith

  -- Marked hashes stay marked, and queued ones get marked.
  record Covers (queue marked : List Hash) : Type 0 where
    queued : (g : Hash) → contains g queue ≡ true → contains g result ≡ true
    old : (g : Hash) → contains g marked ≡ true → contains g result ≡ true

  mark-Covers :
      (fuel : ℕ) (queue marked : List Hash)
      → mark w fuel repo queue marked ≡ some (ok result)
      → Covers queue marked
  unfolding mark contains
  mark-Covers fuel [] marked e = record { queued = λ g m. ground arith; old = λ g m. ground arith }
  mark-Covers zero (h ∷ queue) marked e = ground arith
  mark-Covers (suc fuel) (h ∷ queue) marked e = elim (Turn-of_mark fuel h queue marked e) [
    | again old next ↦
        let ih = mark-Covers fuel queue marked next in
        record {
          queued = λ g m. ground (arith, eq_iff g h, ih.queued g, ih.old h old);
          old = ih.old;
        }
    | fresh queue' new x next ↦
        let ih = mark-Covers fuel queue' (h ∷ marked) next in
        record {
          queued = λ g m.
              ground
                (arith, eq_iff g h, expand_keeps w repo h queue queue' x g, ih.queued g, ih.old g);
          old = λ g m. ih.old g (ground arith);
        }
  ]

  -- What marked hashes refer to is marked or queued.
  abbrev IsClosed : List Hash → List Hash → Type 0
  IsClosed queue marked =
      (h g : Hash)
      → contains h marked ≡ true
      → Refers w repo h g
      → (contains g marked ≡ true) ⊎ (contains g queue ≡ true)

  IsClosed-expand :
      (h : Hash) (queue queue' marked : List Hash)
      → expand w repo h queue ≡ ok queue'
      → IsClosed (h ∷ queue) marked
      → IsClosed queue' (h ∷ marked)
  unfolding contains
  IsClosed-expand h queue queue' marked x closed i g m r = elim (Bool-cases (i == h)) [
    | inl here ↦ inr (
        expand_complete w repo h queue queue' x
          (subst (λ z. Refers w repo z g) ((eq_iff i h).0 here) r))
    | inr other ↦
        ground
          (arith, closed i g (ground arith) r, expand_keeps w repo h queue queue' x g, eq_iff g h)
  ]

  mark-closed :
      (fuel : ℕ) (queue marked : List Hash)
      → mark w fuel repo queue marked ≡ some (ok result)
      → IsClosed queue marked
      → (h g : Hash) → contains h result ≡ true
      → Refers w repo h g
      → contains g result ≡ true
  unfolding mark contains
  mark-closed fuel [] marked e closed h g m r = ground (arith, closed h g (ground arith) r)
  mark-closed zero (i ∷ queue) marked e closed h g m r = ground arith
  mark-closed (suc fuel) (i ∷ queue) marked e closed h g m r =
      elim (Turn-of_mark fuel i queue marked e) [
        | again old next ↦
            mark-closed fuel queue marked next
              (λ a b am ab. ground (arith, closed a b am ab, eq_iff b i)) h g m r
        | fresh queue' new x next ↦
            mark-closed fuel queue' (i ∷ marked) next
              (IsClosed-expand i queue queue' marked x closed) h g m r
      ]

  module _ (roots : List Hash) where
    abbrev AllReach : List Hash → Type 0
    AllReach hs = (g : Hash) → contains g hs ≡ true → Reach w repo roots g

    mark-Reach :
        (fuel : ℕ) (queue marked : List Hash)
        → mark w fuel repo queue marked ≡ some (ok result)
        → AllReach queue
        → AllReach marked
        → AllReach result
    unfolding mark contains
    mark-Reach fuel [] marked e q m g c = m g (ground arith)
    mark-Reach zero (i ∷ queue) marked e q m g c = ground arith
    mark-Reach (suc fuel) (i ∷ queue) marked e q m g c =
        let here = q i (ground (arith, eq_refl i)) in
        elim (Turn-of_mark fuel i queue marked e) [
          | again old next ↦ mark-Reach fuel queue marked next (λ a am. q a (ground arith)) m g c
          | fresh queue' new x next ↦
              mark-Reach fuel queue' (i ∷ marked) next
                (λ a am. elim (expand_sound w repo i queue queue' x a am) [
                  | inl before ↦ q a (ground arith)
                  | inr r ↦ step here r
                ])
                (λ a am. elim (Bool-cases (a == i)) [
                  | inl same ↦ rw ((eq_iff a i).0 same) here
                  | inr other ↦ m a (ground arith)
                ])
                g c
        ]

    Reach-marked :
        (fuel : ℕ)
        → mark w fuel repo roots [] ≡ some (ok result)
        → {g : Hash} → Reach w repo roots g
        → contains g result ≡ true
    unfolding contains
    Reach-marked fuel e (root m) = (mark-Covers fuel roots [] e).queued _ m
    Reach-marked fuel e (step r s) =
        mark-closed fuel roots [] e (λ a b am ab. cc) _ _ (Reach-marked fuel e r) s

    -- From the roots with nothing marked, the loop marks what is reachable, and nothing else.
    pub mark_exact :
        (fuel : ℕ) (g : Hash)
        → mark w fuel repo roots [] ≡ some (ok result)
        → ((contains g result ≡ true) → Reach w repo roots g)
          × (Reach w repo roots g → contains g result ≡ true)
    unfolding contains
    mark_exact fuel g e =
        (mark-Reach fuel roots [] e (λ a am. root am) (λ a am. cc) g, Reach-marked fuel e)
