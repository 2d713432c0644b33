-- ===== src/Assistant/Retrieved.antt =====
-- rag.js: how many passages `ragRetrieve` finds.
use aapda_sync.Base.{ℕ, ◌≤◌, min, String, List, [], ◌∷◌, arith, length}
use aapda_sync.Base.Floats.{Floats}
use aapda_sync.Assistant.{Index, Intent, Scored, or_all, without_excluded, scored_of, rag_retrieve}
use aapda_sync.Assistant.Chosen.{mmr-chooses}

module _ (F : Floats) (log : F.Num → F.Num) where
  or_all_ne :
      (scored kept : List (Scored F log))
      → 1 ≤ length scored
      → 1 ≤ length (or_all F log scored kept)
  or_all_ne scored [] h = h
  or_all_ne scored (r ∷ rest) h = omega arith

  without_excluded_ne :
      (intent : Intent) (scored : List (Scored F log))
      → 1 ≤ length scored
      → 1 ≤ length (without_excluded F log intent scored)
  unfolding without_excluded
  without_excluded_ne Intent.personal scored h = h
  without_excluded_ne Intent.general scored h = h
  without_excluded_ne Intent.latest scored h = or_all_ne scored _ h
  without_excluded_ne Intent.guidance scored h = or_all_ne scored _ h
  without_excluded_ne Intent.quantity scored h = or_all_ne scored _ h
  without_excluded_ne Intent.explain scored h = or_all_ne scored _ h
  without_excluded_ne Intent.locate scored h = or_all_ne scored _ h

  -- Where a passage matches the question at all, leaving out the kinds that are no answer to it never
  -- leaves nothing: at least one passage is found, and at most as many as are asked for.
  pub rag_retrieve-found :
      (rag : Index) (q : String) (qs : List String) (k : ℕ) (intent : Intent)
      → 1 ≤ k
      → 1 ≤ length (scored_of F log rag (q ∷ qs) intent)
      → (1 ≤ length (rag_retrieve F log rag (q ∷ qs) k intent))
        × (length (rag_retrieve F log rag (q ∷ qs) k intent) ≤ k)
  unfolding rag_retrieve
  rag_retrieve-found rag q qs k intent h h' =
      let scored = without_excluded F log intent (scored_of F log rag (q ∷ qs) intent) in
      let (rest, p, n) = mmr-chooses F log scored (min k (length scored)) in
      let some_left = without_excluded_ne intent (scored_of F log rag (q ∷ qs) intent) h' in
      (omega (arith, n, some_left), omega (arith, n))
