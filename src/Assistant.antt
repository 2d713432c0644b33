-- ===== src/Assistant.antt =====
-- The assistant's retrieval: frontend/standalone/src/rag.js, `buildIndex`, `bm25`, `mmr` and
-- `ragRetrieve`. A text is its tokens, as `tokenise` gives them; scores are `Floats`, and
-- no score is NaN or infinite.
pub mod Chosen
pub mod Retrieved
pub mod Answer
pub mod Grounded
mod Tests
use aapda_sync.Base.Floats.{num, greatest, Floats, sort_by}
use aapda_sync.Base.{
  ℕ, zero, suc, ◌+◌, min, max, Bool, true, false, not, ◌&&◌, Option, none, some, String, List, [],
  ◌∷◌, ◌++◌, map, length, take, keep, any, if◌then◌else◌, nat_eq, str_eq, lookup, insert, or_else,
}

-- A passage, with the tokens of its title and its text.
pub record Chunk : Type 0 where
  pub ref : String
  pub kind : String
  pub tokens : List String
  pub title_tokens : List String

-- `RAG`, after `buildIndex`. `total` is the sum that `avgLen` is computed from.
pub record Index : Type 0 where
  pub chunks : List Chunk
  pub df : List (String × ℕ)
  pub total : ℕ

abbrev pub has : String → List String → Bool
has t ts = any (λ s. str_eq s t) ts

-- `new Set(ts)`, in the order of the first occurrences.
unfoldable pub set_of : List String → List String
set_of [] = []
set_of (t ∷ ts) = t ∷ keep (λ s. not (str_eq s t)) (set_of ts)

abbrev pub count_one : String → List (String × ℕ) → List (String × ℕ)
count_one t counts = insert t (or_else (lookup t counts) 0 + 1) counts

unfoldable pub count_all : List String → List (String × ℕ) → List (String × ℕ)
count_all [] counts = counts
count_all (t ∷ ts) counts = count_all ts (count_one t counts)

unfoldable pub index_from : List Chunk → List (String × ℕ) × ℕ → List (String × ℕ) × ℕ
index_from [] counted = counted
index_from (c ∷ cs) (df, total) =
    index_from cs (count_all (set_of c.tokens) df, total + length c.tokens)

unfoldable pub build_index : List Chunk → Index
build_index chunks =
    let counted = index_from chunks ([], 0) in
    record { chunks = chunks; df = counted.0; total = counted.1 }

pub data Intent : Type 0 where
  personal latest guidance quantity explain locate general : Intent

-- INTENT_BOOST, in tenths.
abbrev pub intent_boost : Intent → List (String × ℕ)
intent_boost Intent.guidance = ("safety", 22) ∷ ("policy", 12) ∷ ("history", 11) ∷ []
intent_boost Intent.explain = ("method", 20) ∷ ("policy", 16) ∷ ("catalogue", 13) ∷ []
intent_boost Intent.latest = ("state", 19) ∷ ("alert", 17) ∷ ("cell", 13) ∷ []
intent_boost Intent.locate = ("cell", 16) ∷ ("shelter", 16) ∷ ("state", 14) ∷ ("road", 13) ∷ []
intent_boost Intent.quantity = ("shelter", 15) ∷ ("cell", 14) ∷ ("priority", 14) ∷ []
intent_boost Intent.personal = []
intent_boost Intent.general = []

-- INTENT_EXCLUDE
abbrev pub intent_exclude : Intent → Option (List String)
intent_exclude Intent.guidance =
    some ("model" ∷ "catalogue" ∷ "source" ∷ "priority" ∷ "report" ∷ [])
intent_exclude Intent.latest = some ("model" ∷ "method" ∷ [])
intent_exclude Intent.locate = some ("model" ∷ "method" ∷ "policy" ∷ "history" ∷ [])
intent_exclude Intent.quantity = some ("policy" ∷ "history" ∷ "model" ∷ "method" ∷ "report" ∷ [])
intent_exclude Intent.explain = some ("report" ∷ [])
intent_exclude Intent.personal = none
intent_exclude Intent.general = none

-- `pool.splice(i, 1)`, with the element at `i`.
unfoldable pub splice {ℓ} : {A : Type ℓ} → ℕ → List A → Option (A × List A)
splice i [] = none
splice zero (x ∷ xs) = some (x, xs)
splice (suc i) (x ∷ xs) = elim (splice i xs) [ none ↦ none | some (y, ys) ↦ some (y, x ∷ ys) ]

module _ (F : Floats) (log : F.Num → F.Num) where
  -- `RAG.df.get(q) || 0.5`
  abbrev pub doc_frequency : Option ℕ → F.Num
  doc_frequency none = F.lit 5 10
  doc_frequency (some d) = num F d

  -- One round of the loop of `bm25`, where the term occurs.
  unfoldable pub contribution : Index → Chunk → String → (f : ℕ) → F.Num
  contribution rag chunk q f =
      let n = num F (length rag.chunks) in
      let df = doc_frequency (lookup q rag.df) in
      let half = F.lit 5 10 in
      let idf = log (F.add (num F 1) (F.div (F.add (F.sub n df) half) (F.add df half))) in
      let k1 = F.lit 15 10 in
      let b = F.lit 75 100 in
      let avg_len = F.div (num F rag.total) (num F (max (length rag.chunks) 1)) in
      let relative = F.div (F.mul b (num F (length chunk.tokens))) avg_len in
      let score =
        F.div (F.mul idf (F.mul (num F f) (F.add k1 (num F 1))))
          (F.add (num F f) (F.mul k1 (F.add (F.sub (num F 1) b) relative))) in
      if has q chunk.title_tokens then F.mul score (F.lit 18 10) else score

  unfoldable pub bm25_from : Index → Chunk → List String → (score : F.Num) → F.Num
  bm25_from rag chunk [] score = score
  bm25_from rag chunk (q ∷ qs) score =
      bm25_from rag chunk qs (elim (lookup q (count_all chunk.tokens [])) [
        | none ↦ score
        | some f ↦ F.add score (contribution rag chunk q f)
      ])

  abbrev pub bm25 : Index → List String → Chunk → F.Num
  bm25 rag q chunk = bm25_from rag chunk q (num F 0)

  pub record Scored : Type 0 where
    pub chunk : Chunk
    pub score : F.Num

  -- `sim` of `mmr`.
  unfoldable pub sim : Scored → Scored → F.Num
  sim x y =
      let a = set_of x.chunk.tokens in
      let b = set_of y.chunk.tokens in
      let inter = length (keep (λ t. has t b) a) in
      F.div (num F inter) (num F (max 1 (min (length a) (length b))))

  unfoldable pub redundancy : Scored → List Scored → F.Num
  redundancy cand [] = num F 0
  redundancy cand (c ∷ []) = sim cand c
  redundancy cand (c ∷ c' ∷ cs) = greatest F (sim cand c) (redundancy cand (c' ∷ cs))

  -- `val`, for the score of the first passage, `top`.
  unfoldable pub relevance : (top : F.Num) → List Scored → Scored → F.Num
  relevance top chosen cand =
      F.sub (F.mul (F.lit 72 100) cand.score)
        (F.mul (F.mul (F.lit 28 100) (redundancy cand chosen)) top)

  -- The index of the best candidate: `at` and `best` are those of the best before the index `i`.
  unfoldable pub best_at : (Scored → F.Num) → (at : ℕ) (best : F.Num) (i : ℕ) → List Scored → ℕ
  best_at val at best i [] = at
  best_at val at best i (c ∷ cs) =
      if F.lt best (val c) then best_at val i (val c) (suc i) cs else best_at val at best (suc i) cs

  -- `rounds` is `k - chosen.length`.
  unfoldable pub mmr_loop : (rounds : ℕ) → F.Num → (pool chosen : List Scored) → List Scored
  mmr_loop zero top pool chosen = chosen
  mmr_loop (suc k) top [] chosen = chosen
  mmr_loop (suc k) top (c ∷ cs) chosen =
      let val = relevance top chosen in
      elim (splice (best_at val 0 (val c) 1 cs) (c ∷ cs)) [
        | none ↦ chosen
        | some (best, pool) ↦ mmr_loop k top pool (chosen ++ best ∷ [])
      ]

  unfoldable pub mmr : List Scored → ℕ → List Scored
  mmr [] k = []
  mmr (s ∷ ss) k = mmr_loop k s.score (take 40 (s ∷ ss)) []

  unfoldable pub score_chunk : Index → List String → Intent → Chunk → Scored
  score_chunk rag q intent chunk = record {
    chunk = chunk;
    score =
        F.mul (bm25 rag q chunk) (F.lit (or_else (lookup chunk.kind (intent_boost intent)) 10) 10);
  }

  -- The passages that match, the best first.
  unfoldable pub scored_of : Index → List String → Intent → List Scored
  scored_of rag q intent =
      sort_by (λ (a : Scored) (b : Scored). F.lt b.score a.score)
        (keep (λ (r : Scored). F.lt (num F 0) r.score) (map (score_chunk rag q intent) rag.chunks))

  abbrev pub or_all : List Scored → List Scored → List Scored
  or_all scored [] = scored
  or_all scored (r ∷ rest) = r ∷ rest

  unfoldable pub without_excluded : Intent → List Scored → List Scored
  without_excluded intent scored = elim (intent_exclude intent) [
    | none ↦ scored
    | some drop ↦ or_all scored (keep (λ (r : Scored). not (has r.chunk.kind drop)) scored)
  ]

  -- `passages` of `ragRetrieve(query, k, intent)`, on an index that is not dirty.
  unfoldable pub rag_retrieve : Index → List String → ℕ → Intent → List Scored
  rag_retrieve rag [] k intent = []
  rag_retrieve rag (q ∷ qs) k intent =
      let scored = without_excluded intent (scored_of rag (q ∷ qs) intent) in
      mmr scored (min k (length scored))
