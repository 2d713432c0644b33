-- ===== src/Assistant/Answer.antt =====
-- rag.js `sentencesFor` and `ragAnswer`. How a passage reads, with its sentences of more than twelve
-- characters and their tokens, is an argument; so is the sentence about the situation.
use aapda_sync.Base.{
  ℕ, suc, ◌+◌, max, Bool, true, false, not, ◌&&◌, ◌||◌, Option, none, some, String, List, [], ◌∷◌,
  ◌++◌, map, length, take, keep, any, if◌then◌else◌, nat_eq, str_eq, lookup, joined,
}
use aapda_sync.Base.Floats.{Floats, num, sort_by}
use aapda_sync.Base.Sorts.{sort_on}
use aapda_sync.Assistant.{
  Chunk, Index, Intent, Scored, has, scored_of, without_excluded, rag_retrieve,
}

pub record Sentence : Type 0 where
  pub s : String
  pub tokens : List String

pub record Page : Type 0 where
  pub title : String
  pub text : String
  pub sentences : List Sentence

-- What `ragRetrieve` returns beside the passages is the number of words that the corpus knows, and the
-- best score for each of them.
abbrev pub is_word : Index → String → Bool
is_word rag t = elim (lookup t rag.df) [ none ↦ false | some n ↦ true ]

abbrev pub matchable_of : Index → List String → ℕ
matchable_of rag q = length (keep (is_word rag) q)

abbrev pub spaced : List String → String
spaced [] = ""
spaced (a ∷ []) = a
spaced (a ∷ b ∷ rest) = joined (a ∷ " " ∷ spaced (b ∷ rest) ∷ [])

module _ (F : Floats) (log : F.Num → F.Num) where
  pub record Ranked : Type 0 where
    pub s : String
    pub i : ℕ
    pub hit : F.Num

  -- `hit / Math.max(t.length, 1) * Math.log(1 + hit)`
  abbrev pub hit_of : (q t : List String) → F.Num
  hit_of q t =
      let hit = length (keep (λ w. has w q) t) in
      F.mul (F.div (num F hit) (num F (max (length t) 1))) (log (num F (1 + hit)))

  unfoldable pub ranked_from : (q : List String) → ℕ → List Sentence → List Ranked
  ranked_from q i [] = []
  ranked_from q i (x ∷ xs) =
      record { s = x.s; i = i; hit = hit_of q x.tokens } ∷ ranked_from q (suc i) xs

  abbrev pub best_first : List Ranked → List Ranked
  best_first = sort_by (λ (a : Ranked) (b : Ranked). F.lt b.hit a.hit)

  abbrev pub or_first : List Ranked → List Ranked → List Ranked
  or_first ranked [] = take 1 ranked
  or_first ranked (r ∷ rest) = r ∷ rest

  -- `body`: the two best sentences that have a word of the question, or the first, in the order of the
  -- passage.
  unfoldable pub body_of : (q : List String) → List Sentence → List Ranked
  body_of q sents =
      let ranked = best_first (ranked_from q 0 sents) in
      let kept = keep (λ (r : Ranked). F.lt (num F 0) r.hit) (take 2 ranked) in
      sort_on (λ (r : Ranked). r.i) (or_first ranked kept)

  abbrev pub quoted : (title body : String) → String
  quoted title body = joined ("**" ∷ title ∷ "** — " ∷ body ∷ [])

  -- The sentences that are quoted of a passage that has some.
  abbrev pub body_text : (kind : String) → (q : List String) → List Sentence → String
  body_text kind q sents =
      if str_eq kind "safety" || str_eq kind "history"
      then spaced (map (λ (x : Sentence). x.s) (take 3 sents))
      else spaced (map (λ (r : Ranked). r.s) (body_of q sents))

  -- `sentencesFor(chunk, query)`
  abbrev pub text_of : Page → (kind : String) → (q : List String) → List Sentence → String
  text_of page kind q [] = quoted page.title page.text
  text_of page kind q (x ∷ xs) = quoted page.title (body_text kind q (x ∷ xs))

  abbrev pub sentences_for : (page_of : Chunk → Page) → Chunk → (q : List String) → String
  sentences_for page_of chunk q = text_of (page_of chunk) chunk.kind q (page_of chunk).sentences

  -- `perTerm`, 0 where nothing matches.
  abbrev pub share_of : (matchable : ℕ) → List (Scored F log) → F.Num
  share_of matchable [] = num F 0
  share_of matchable (r ∷ rest) = F.div r.score (num F (max matchable 1))

  abbrev pub per_term : Index → (q : List String) → Intent → F.Num
  per_term rag [] intent = num F 0
  per_term rag (t ∷ ts) intent =
      share_of (matchable_of rag (t ∷ ts))
        (without_excluded F log intent (scored_of F log rag (t ∷ ts) intent))

  pub record Cite : Type 0 where
    pub ref : String
    pub kind : String
    pub score : F.Num

  pub record Answer : Type 0 where
    pub refused : Bool
    pub lines : List String
    pub passages : List (Scored F log)
    pub cite : List Cite
    pub footer : String

  abbrev pub kind_in : List String → Scored F log → Bool
  kind_in kinds p = has p.chunk.kind kinds

  -- The answer that is given to a question about the person's own safety, with the records that are shown.
  abbrev pub refused_with : (text : String) → List (Scored F log) → Answer
  refused_with text near = record {
    refused = true;
    lines = text ∷ [];
    passages = near;
    cite = [];
    footer = "";
  }

  abbrev pub personal_text : List (Scored F log) → String
  personal_text near = joined (
      "I cannot tell you whether you personally are safe. That depends on exactly where you are, "
      ∷ "and it is a judgement for the authorities and the responders on the ground — not for a model. "
      ∷ "What I can do is show you what the platform holds for your area, and repeat the official instruction. "
      ∷ (if nat_eq (length near) 0 then "" else "Those records are below.")
      ∷ "\n\nIf you are in immediate danger, call 112. The district control room is 1077."
      ∷ [])

  abbrev pub unknown_text : String
  unknown_text =
      "I do not have a record that answers that. I only answer from this platform's own data — risk cells, official alerts, shelters, roads, sources and models — and from its documented methods. Nothing in there matched your question closely enough for me to answer it honestly.\n\nTry naming a state, a zone, a shelter, or a hazard, and I will show you what is held for it."

  -- The first line, for the sentence about `S.latest`, if there is one.
  abbrev pub framing : Intent → (latest : Option String) → List String
  framing Intent.latest none = []
  framing Intent.latest (some text) = text ∷ []
  framing Intent.guidance latest =
      "Here is what the official guidance says, and what the platform currently holds for it." ∷ []
  framing Intent.personal latest = []
  framing Intent.quantity latest = []
  framing Intent.explain latest = []
  framing Intent.locate latest = []
  framing Intent.general latest = []

  -- The loop over the passages, with the references seen before.
  unfoldable pub cited_from : (seen : List String) → List (Scored F log) → List (Scored F log)
  cited_from seen [] = []
  cited_from seen (p ∷ ps) =
      let later = cited_from (p.chunk.ref ∷ seen) ps in
      if has p.chunk.ref seen then cited_from seen ps else p ∷ later

  abbrev pub cite_of : Scored F log → Cite
  cite_of p = record { ref = p.chunk.ref; kind = p.chunk.kind; score = F.to_fixed 2 p.score }

  unfoldable pub footer_of : (used_model used_alert : Bool) → String
  footer_of used_model used_alert =
      if used_model && not used_alert
      then "These are AI-based estimates for decision support, not official warnings."
      else if used_model && used_alert
      then "The warning above is official and takes precedence. The scores are model estimates."
      else ""

  module _ (page_of : Chunk → Page) (latest : Option String) where
    abbrev pub answered : (q : List String) → Intent → List (Scored F log) → Answer
    answered q intent passages =
        let cited = cited_from [] passages in
        record {
          refused = false;
          lines =
              framing intent latest
              ++ map (λ (p : Scored F log). sentences_for page_of p.chunk q) cited;
          passages = passages;
          cite = map cite_of cited;
          footer =
              footer_of (any (kind_in ("cell" ∷ "priority" ∷ "model" ∷ "state" ∷ [])) passages)
                (any (kind_in ("alert" ∷ [])) passages);
        }

    -- `RAG.minPerTerm` is 0.62.
    abbrev pub is_unknown : (matchable : ℕ) → F.Num → List (Scored F log) → Bool
    is_unknown matchable share passages =
        nat_eq (length passages) 0 || (nat_eq matchable 0 || F.lt share (F.lit 62 100))

    abbrev pub near_of : List (Scored F log) → List (Scored F log)
    near_of passages =
        take 3 (keep (kind_in ("cell" ∷ "alert" ∷ "shelter" ∷ "state" ∷ [])) passages)

    unfoldable pub answer_from :
        (matchable : ℕ) → F.Num → (q : List String) → Intent → List (Scored F log) → Answer
    answer_from matchable share q Intent.personal passages =
        refused_with (personal_text (near_of passages)) (near_of passages)
    answer_from matchable share q intent passages =
        if is_unknown matchable share passages
        then refused_with unknown_text []
        else answered q intent passages

    -- `ragAnswer(query)`, for the query's tokens and `intentOf(query)`.
    abbrev pub rag_answer : Index → (q : List String) → Intent → Answer
    rag_answer rag q intent =
        answer_from (matchable_of rag q) (per_term rag q intent) q intent
          (rag_retrieve F log rag q 5 intent)
