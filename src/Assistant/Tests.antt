-- ===== src/Assistant/Tests.antt =====
-- A question about a flood, on an index of three passages.
use mathlib.Core.List.{Perm}
use aapda_sync.Base.{
  ℕ, ◌-◌, ◌≤◌, min, true, false, ◌||◌, ◌⊎◌, none, String, List, [], ◌∷◌, ◌++◌, ◌≡◌, refl, arith,
  length, take, lookup, insert, map,
}
use aapda_sync.Base.Hundredths.{hundredths}
use aapda_sync.Assistant.{
  Chunk, Index, Intent, Scored, build_index, index_from, count_all, set_of, scored_of, score_chunk,
  bm25_from, contribution, rag_retrieve, mmr, mmr_loop, splice, best_at, relevance, redundancy, sim,
  without_excluded,
}
use aapda_sync.Assistant.Answer.{Page, rag_answer, matchable_of, per_term, is_unknown}
use aapda_sync.Assistant.Grounded.{cites_of, refs_of, is_personal, rag_answer-Grounded}
use aapda_sync.Assistant.Chosen.{mmr-chooses}
use aapda_sync.Assistant.Retrieved.{rag_retrieve-found}

abbrev log : ℕ → ℕ
log a = a - 50

abbrev chunk : String → String → List String → Chunk
chunk ref kind tokens = record { ref = ref; kind = kind; tokens = tokens; title_tokens = tokens }

abbrev index : Index
index = build_index (
    chunk "M1" "model" ("flood" ∷ "model" ∷ [])
    ∷ chunk "G1" "safety" ("flood" ∷ "climb" ∷ [])
    ∷ chunk "R1" "road" ("bridge" ∷ [])
    ∷ [])

abbrev scored : List (Scored hundredths log)
scored = scored_of hundredths log index ("flood" ∷ []) Intent.guidance

two_match : length scored ≡ 2
unfolding scored_of score_chunk bm25_from contribution build_index index_from count_all set_of
    lookup insert
two_match = refl

mmr-chooses_example :
    (rest : List (Scored hundredths log)) × Perm
      (mmr hundredths log scored 1 ++ rest)
      (take 40 scored)
    × (length (mmr hundredths log scored 1) ≡ min 1 (min 40 (length scored)))
mmr-chooses_example = mmr-chooses hundredths log scored 1

rag_retrieve-found_example :
    (1 ≤ length (rag_retrieve hundredths log index ("flood" ∷ []) 5 Intent.guidance))
    × (length (rag_retrieve hundredths log index ("flood" ∷ []) 5 Intent.guidance) ≤ 5)
rag_retrieve-found_example =
    rag_retrieve-found hundredths log index "flood" [] 5 Intent.guidance (omega arith)
      (omega (arith, two_match))

found_guidance :
    map
      (λ (s : Scored hundredths log). s.chunk.ref)
      (rag_retrieve hundredths log index ("flood" ∷ []) 5 Intent.guidance)
    ≡ "G1" ∷ []
unfolding rag_retrieve mmr mmr_loop splice best_at relevance redundancy sim without_excluded
    scored_of score_chunk bm25_from contribution build_index index_from count_all set_of lookup
    insert
found_guidance = refl

abbrev question : List String
question = "flood" ∷ []

abbrev page_of : Chunk → Page
page_of c = record { title = c.ref; text = "Climb."; sentences = [] }

-- The question names a flood, and asks for guidance.
rag_answer-Grounded_example :
    let q = question in
    let found = rag_retrieve hundredths log index q 5 Intent.guidance in
    let a = rag_answer hundredths log page_of none index q Intent.guidance in
    let refuse =
      is_personal hundredths log Intent.guidance
      || is_unknown hundredths log page_of none
          (matchable_of index q)
          (per_term hundredths log index q Intent.guidance)
          found in
    ((refuse ≡ true)
      × (a.refused ≡ true)
      × (cites_of hundredths log a.cite ≡ [])
      × (length a.passages ≤ 3))
    ⊎ ((refuse ≡ false)
        × (a.refused ≡ false)
        × (a.passages ≡ found)
        × (cites_of hundredths log a.cite ≡ set_of (refs_of hundredths log found))
        × (1 ≤ length found))
rag_answer-Grounded_example =
    rag_answer-Grounded hundredths log page_of none index question Intent.guidance
