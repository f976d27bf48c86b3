-- ===== src/Pipeline/Llm/Attempts.antt =====
-- How often the model is asked.
use deal_screening_agent.Prelude.{
  ltb, if◌then◌else◌, length, All, ℕ, zero, suc, ◌+◌, ◌*◌, ◌≤◌, String, ◌≡◌, refl, ap, Option, List,
  [], ◌∷◌, arith,
}
use deal_screening_agent.Prelude.Exec.{Result, err}
use deal_screening_agent.Prelude.Json.{Value}
use deal_screening_agent.Deals.Extraction.{FieldData}
use deal_screening_agent.Pipeline.Llm.{
  LlmError, llm_extraction_error, Message, build_extraction_messages, Answer, api_error,
  other_exception, replied, LlmRun, max_retries, judge, round, attempts, extract_fields_via_llm,
}

abbrev pub total : List ℕ → ℕ
total [] = 0
total (n ∷ ns) = n + total ns

module _ (loads : String → Option Value) (column_text : Value → String) where
  -- The verdict of the first outcome that is not an API error, as a plain recursion.
  abbrev pub first_verdict : List Answer → Result LlmError (List FieldData)
  first_verdict [] = err llm_extraction_error
  first_verdict (api_error ∷ answers) = first_verdict answers
  first_verdict (answer ∷ answers) = judge loads column_text answer

  -- how many outcomes are looked at until then
  abbrev pub tried : List Answer → ℕ
  tried [] = 0
  tried (api_error ∷ answers) = suc (tried answers)
  tried (answer ∷ answers) = 1

  -- the outcomes of the next rounds
  abbrev pub outcomes : (ℕ → Answer) → ℕ → ℕ → List Answer
  outcomes call zero attempt = []
  outcomes call (suc left) attempt = call attempt ∷ outcomes call left (attempt + 1)

  -- what a run does, by its outcomes
  record Follows (messages : List Message) (answers : List Answer) (run : LlmRun) : Type 0 where
    pub verdict : run.result ≡ first_verdict answers
    pub number : length run.requests ≡ tried answers
    pub same : All (λ m. m ≡ messages) run.requests

  round-Follows :
      (messages : List Message) (attempt backoff : ℕ) (answer : Answer) (answers : List Answer)
      (rest : LlmRun)
      → Follows messages answers rest
      → Follows messages
          (answer ∷ answers)
          (round loads column_text messages attempt backoff answer rest)
  round-Follows messages attempt backoff api_error answers rest f = record {
    verdict = f.verdict;
    number = ap suc f.number;
    same = (refl, f.same);
  }
  round-Follows messages attempt backoff other_exception answers rest f = record {
    verdict = refl;
    number = refl;
    same = (refl, tt);
  }
  round-Follows messages attempt backoff (replied content) answers rest f = record {
    verdict = refl;
    number = refl;
    same = (refl, tt);
  }

  attempts-Follows :
      (call : ℕ → Answer) (messages : List Message) (left attempt backoff : ℕ)
      → Follows messages
          (outcomes call left attempt)
          (attempts loads column_text call messages left attempt backoff)
  unfolding attempts
  attempts-Follows call messages zero attempt backoff = record {
    verdict = refl;
    number = refl;
    same = tt;
  }
  attempts-Follows call messages (suc left) attempt backoff =
      round-Follows messages attempt backoff (call attempt) (outcomes call left (attempt + 1)) _
        (attempts-Follows call messages left (attempt + 1) (backoff * 2))

  tried-le-length : (answers : List Answer) → tried answers ≤ length answers
  tried-le-length [] = omega arith
  tried-le-length (api_error ∷ answers) = omega (arith, tried-le-length answers)
  tried-le-length (other_exception ∷ answers) = omega arith
  tried-le-length (replied content ∷ answers) = omega arith

  total-round-le :
      (messages : List Message) (attempt backoff bound : ℕ) (answer : Answer) (rest : LlmRun)
      → total rest.sleeps ≤ bound
      → total (round loads column_text messages attempt backoff answer rest).sleeps
        ≤ (if ltb attempt max_retries then backoff + bound else bound)
  total-round-le messages attempt backoff bound api_error rest h = ground arith
  total-round-le messages attempt backoff bound other_exception rest h = ground arith
  total-round-le messages attempt backoff bound (replied content) rest h = ground arith

  pub extract_fields_via_llm_lem :
      (call : List Message → ℕ → Answer) (document_text : String)
      → let messages = build_extraction_messages document_text in
        let answers = call messages 0 ∷ call messages 1 ∷ call messages 2 ∷ [] in
        let run = extract_fields_via_llm loads column_text call document_text in
        (run.result ≡ first_verdict answers)
        × (length run.requests ≡ tried answers)
        × (length run.requests ≤ 3)
        × All (λ m. m ≡ messages) run.requests
        × (total run.sleeps ≤ 3)
  unfolding extract_fields_via_llm attempts
  extract_fields_via_llm_lem call document_text =
      let messages = build_extraction_messages document_text in
      let ask = call messages in
      let f = attempts-Follows ask messages 3 0 1 in
      (
        f.verdict,
        f.number,
        omega (arith, f.number, tried-le-length (ask 0 ∷ ask 1 ∷ ask 2 ∷ [])),
        f.same,
        total-round-le messages 0 1 2 (ask 0) _ (
            total-round-le messages 1 2 0 (ask 1) _
              (total-round-le messages 2 4 0 (ask 2) _ (omega arith))),
      )
