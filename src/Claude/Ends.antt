-- ===== src/Claude/Ends.antt =====
-- internal/driver/claude/claude.go: how a run ends.
use agent_ops.Prelude.{
  ℕ, zero, suc, ◌+◌, ◌*◌, ◌≤◌, Str, none, List, [], ◌∷◌, ◌++◌, ◌≡◌, ◌≢◌, refl, length,
  length-append, arith,
}
use agent_ops.State.Data.{Store}
use agent_ops.Task.Runner.{Request}
use agent_ops.Claude.Wire.{assistant, Content, Message, assistant_text}
use agent_ops.Claude.Loop.{
  ClaudeDriver, Api, Surroundings, Conv, Ended, loop, opening, converse, request_body, model_of,
  or_default, stopped,
}
use agent_ops.Claude.Cases.{heard, turn, on_reply_cases, converse_cases}
use agent_ops.Claude.Dialogue.{length-turn, turn_says}

-- the end of a run of so many turns at most
pub record EndsWithin (max_iter : ℕ) (e : Ended) : Type 0 where
  pub short : length e.conv.messages ≤ 1 + 2 * max_iter
  pub used_up : e.error ≡ none → e.result.error ≢ [] → length e.conv.messages ≡ 1 + 2 * max_iter
  pub last_word :
      e.error ≡ none
      → e.result.error ≡ []
      → (before after : List Message) × (content : List Content) × (e.conv.messages
          ≡ before ++ record { role = assistant; content = content } ∷ after)
        × (e.result.final_message ≡ assistant_text content)
        × (length after ≤ 1)
  pub empty_handed : e.error ≢ none → e.result.final_message ≡ []

length-heard :
    (content : List Content) (c : Conv) → length (heard content c).messages ≡ length c.messages + 1
length-heard content c = length-append c.messages _

stopped_ends :
    (max_iter : ℕ) (e : Str) (c : Conv)
    → length c.messages ≤ 1 + 2 * max_iter
    → EndsWithin max_iter (stopped e c)
stopped_ends max_iter e c h = record {
  short = h;
  used_up = λ p q. cc p;
  last_word = λ p q. cc p;
  empty_handed = λ p. refl;
}

module _ (env : Surroundings) (api : Api) (req : Request) (model : Str)
    (max_tokens max_iter : ℕ) where
  loop_ends :
      (left iter : ℕ) (c : Conv)
      → iter + left ≡ max_iter
      → length c.messages ≡ 1 + 2 * iter
      → EndsWithin max_iter (loop env api req model max_tokens max_iter left iter c)
  unfolding loop
  loop_ends zero iter c e n = record {
    short = omega (arith, e, n);
    used_up = λ p q. omega (arith, e, n);
    last_word = λ p q. cc q;
    empty_handed = λ p. refl;
  }
  loop_ends (suc left) iter c e n =
      on_reply_cases env req.tools iter
        (λ c'. loop env api req model max_tokens max_iter left (suc iter) c') c
        (EndsWithin max_iter) (λ message. stopped_ends max_iter message c (omega (arith, e, n)))
        (λ content u. record {
          short = omega (arith, e, n, length-heard content c);
          used_up = λ p q. absurd (q refl);
          last_word = λ p q. (c.messages, [], content, refl, refl, omega arith);
          empty_handed = λ p. absurd (p refl);
        })
        (λ content u.
          let (results, q') = turn_says env req.tools c content in
          record {
            short = omega (arith, e, n, length-turn env req.tools c content);
            used_up = λ p q. absurd (q refl);
            last_word = λ p q. (c.messages, _, content, q', refl, omega arith);
            empty_handed = λ p. absurd (p refl);
          })
        (λ content u.
          loop_ends left (suc iter) (turn env req.tools c content) (omega (arith, e))
            (omega (arith, n, length-turn env req.tools c content)))
        (api (request_body model max_tokens req c))

-- Whatever the API answers, a run ends after as many turns as the bound on tool calls at most. If it
-- reports no error, its final message is the text of the API's last message; if it reports that the
-- bound was reached, that many turns took place; if it fails, it has no final message.
pub converse-EndsWithin :
    (d : ClaudeDriver) (env : Surroundings) (api : Api) (req : Request) (s : Store)
    → EndsWithin (or_default 25 req.max_tool_calls) (converse d env api req s)
converse-EndsWithin d env api req s =
    converse_cases d env api req s (EndsWithin max_iter)
      (λ message. stopped_ends max_iter message (opening req s) (omega arith))
      (loop_ends env api req (model_of d req) (or_default 4096 d.max_output_tokens) max_iter
        max_iter 0 (opening req s) (omega arith) refl)
  where
    max_iter : ℕ
    max_iter = or_default 25 req.max_tool_calls
