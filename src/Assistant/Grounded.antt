-- ===== src/Assistant/Grounded.antt =====
-- rag.js `ragAnswer`: when an answer is given, and what it cites.
use aapda_sync.Base.{
  ℕ, ◌≤◌, Bool, true, false, not, ◌||◌, Option, String, List, [], ◌∷◌, ◌≡◌, ◌⊎◌, refl, sym, ap, ◌∙◌,
  arith, inl, inr, map, length, keep, if◌then◌else◌, str_eq, str_eq_iff, Bool-cases, length-take,
}
use aapda_sync.Base.Floats.{Floats}
use aapda_sync.Assistant.{Chunk, Index, Intent, Scored, has, set_of, rag_retrieve}
use aapda_sync.Assistant.Answer.{
  Page, Cite, Answer, cited_from, cite_of, refused_with, unknown_text, kind_in, matchable_of,
  per_term, is_unknown, answered, near_of, answer_from, rag_answer,
}

-- The references that were not seen.
abbrev unseen : List String → List String → List String
unseen seen refs = keep (λ r. not (has r seen)) refs

unseen-seen :
    (r : String) (seen refs : List String)
    → has r seen ≡ true
    → unseen seen (keep (λ s. not (str_eq s r)) refs) ≡ unseen seen refs
unseen-seen r seen [] e = refl
unseen-seen r seen (x ∷ refs) e = elim (Bool-cases (str_eq x r)) [
  | inl k ↦
      (let there = ap (λ y. has y seen) ((str_eq_iff x r).0 k) ∙ e in
        rw (k, there) (unseen-seen r seen refs e))
  | inr k ↦ rw k (ground (arith, unseen-seen r seen refs e))
]

unseen-new :
    (r : String) (seen refs : List String)
    → unseen seen (keep (λ s. not (str_eq s r)) refs) ≡ unseen (r ∷ seen) refs
unseen-new r seen [] = refl
unseen-new r seen (x ∷ refs) =
    ground (arith, unseen-new r seen refs, str_eq_iff x r, str_eq_iff r x)

module _ (F : Floats) (log : F.Num → F.Num) where
  abbrev pub ref_of : Scored F log → String
  ref_of p = p.chunk.ref

  abbrev pub refs_of : List (Scored F log) → List String
  refs_of ps = map ref_of ps

  abbrev pub cites_of : List (Cite F log) → List String
  cites_of cs = map (λ (c : Cite F log). c.ref) cs

  cited_from-seen :
      (seen : List String) (p : Scored F log) (ps : List (Scored F log))
      → has (ref_of p) seen ≡ true
      → cited_from F log seen (p ∷ ps) ≡ cited_from F log seen ps
  unfolding cited_from
  cited_from-seen seen p ps e = rw e refl

  cited_from-new :
      (seen : List String) (p : Scored F log) (ps : List (Scored F log))
      → has (ref_of p) seen ≡ false
      → cited_from F log seen (p ∷ ps) ≡ p ∷ cited_from F log (ref_of p ∷ seen) ps
  unfolding cited_from
  cited_from-new seen p ps e = rw e refl

  refs_of-cited_from :
      (seen : List String) (ps : List (Scored F log))
      → refs_of (cited_from F log seen ps) ≡ unseen seen (set_of (refs_of ps))
  unfolding cited_from set_of
  refs_of-cited_from seen [] = refl
  refs_of-cited_from seen (p ∷ ps) =
      let r = ref_of p in
      let refs = set_of (refs_of ps) in
      elim (Bool-cases (has r seen)) [
        | inl e ↦
            rw (cited_from-seen seen p ps e, e)
              (refs_of-cited_from seen ps ∙ sym (unseen-seen r seen refs e))
        | inr e ↦
            rw (cited_from-new seen p ps e, e)
              (ap (λ rs. r ∷ rs) (refs_of-cited_from (r ∷ seen) ps ∙ sym (unseen-new r seen refs)))
      ]

  unseen-none : (refs : List String) → unseen [] refs ≡ refs
  unseen-none [] = refl
  unseen-none (r ∷ refs) = ap (λ rs. r ∷ rs) (unseen-none refs)

  cites_of-map : (ps : List (Scored F log)) → cites_of (map (cite_of F log) ps) ≡ refs_of ps
  cites_of-map [] = refl
  cites_of-map (p ∷ ps) = ap (λ rs. ref_of p ∷ rs) (cites_of-map ps)

  abbrev pub is_personal : Intent → Bool
  is_personal Intent.personal = true
  is_personal Intent.latest = false
  is_personal Intent.guidance = false
  is_personal Intent.quantity = false
  is_personal Intent.explain = false
  is_personal Intent.locate = false
  is_personal Intent.general = false

  module _ (page_of : Chunk → Page) (latest : Option String) (matchable : ℕ) (share : F.Num)
      (q : List String) (found : List (Scored F log)) where
    abbrev answer_for : Intent → Answer F log
    answer_for intent = answer_from F log page_of latest matchable share q intent found

    abbrev unknown : Bool
    unknown = is_unknown F log page_of latest matchable share found

    abbrev said : Intent → Answer F log
    said intent =
        if unknown
        then refused_with F log (unknown_text F log) []
        else answered F log page_of latest q intent found

    -- A refusal shows at most three records and cites none; an answer cites each record found, once.
    abbrev Grounded : Bool → Answer F log → Type 0
    Grounded refuse a =
        ((refuse ≡ true) × (a.refused ≡ true) × (cites_of a.cite ≡ []) × (length a.passages ≤ 3))
        ⊎ ((refuse ≡ false)
            × (a.refused ≡ false)
            × (a.passages ≡ found)
            × (cites_of a.cite ≡ set_of (refs_of found))
            × (1 ≤ length found))

    found_some : unknown ≡ false → 1 ≤ length found
    found_some e = ground arith

    said-Grounded : (intent : Intent) → Grounded unknown (said intent)
    said-Grounded intent = elim (Bool-cases unknown) [
      | inl e ↦ rw e (inl (refl, refl, refl, omega arith))
      | inr e ↦
          (let cites =
              cites_of-map (cited_from F log [] found)
              ∙ refs_of-cited_from [] found
              ∙ unseen-none (set_of (refs_of found)) in
            let some_left = found_some e in rw e (inr (refl, refl, refl, cites, some_left)))
    ]

    near_le : length (near_of F log page_of latest found) ≤ 3
    near_le = omega (
      arith,
      length-take 3 (keep (kind_in F log ("cell" ∷ "alert" ∷ "shelter" ∷ "state" ∷ [])) found),
    )

    answer_from-Grounded :
        (intent : Intent) → Grounded (is_personal intent || unknown) (answer_for intent)
    unfolding answer_from
    answer_from-Grounded Intent.personal = inl (refl, refl, refl, near_le)
    answer_from-Grounded Intent.latest = said-Grounded Intent.latest
    answer_from-Grounded Intent.guidance = said-Grounded Intent.guidance
    answer_from-Grounded Intent.quantity = said-Grounded Intent.quantity
    answer_from-Grounded Intent.explain = said-Grounded Intent.explain
    answer_from-Grounded Intent.locate = said-Grounded Intent.locate
    answer_from-Grounded Intent.general = said-Grounded Intent.general

  -- The assistant refuses exactly if the question is about the person's own safety, or nothing was found
  -- or matches closely enough; then it cites nothing and shows at most three records. Otherwise
  -- something was found, and the answer cites each record that was found, in that order, and once.
  pub rag_answer-Grounded :
      (page_of : Chunk → Page) (latest : Option String) (rag : Index) (q : List String)
      (intent : Intent)
      → let found = rag_retrieve F log rag q 5 intent in
        let a = rag_answer F log page_of latest rag q intent in
        let refuse =
          is_personal intent
          || is_unknown F log page_of latest
              (matchable_of rag q)
              (per_term F log rag q intent)
              found in
        ((refuse ≡ true) × (a.refused ≡ true) × (cites_of a.cite ≡ []) × (length a.passages ≤ 3))
        ⊎ ((refuse ≡ false)
            × (a.refused ≡ false)
            × (a.passages ≡ found)
            × (cites_of a.cite ≡ set_of (refs_of found))
            × (1 ≤ length found))
  rag_answer-Grounded page_of latest rag q intent =
      answer_from-Grounded page_of latest (matchable_of rag q) (per_term F log rag q intent) q
        (rag_retrieve F log rag q 5 intent) intent
