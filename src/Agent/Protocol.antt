-- ===== src/Agent/Protocol.antt =====
-- The conversation that the loop has with the model.
use krane_event_management_p.Common.{
  ℕ, zero, suc, ◌+◌, ◌<◌, ◌≡◌, refl, subst, String, Option, List, [], ◌∷◌, ◌++◌, ◌⊎◌, inl, inr,
  arith, Bool-cases, Option-cases,
}
use krane_event_management_p.Agent.{
  ContentBlock, text, tool_use, tool_result, other, Message, user, ModelResponse, Api, Dispatched,
  results, unknown_tool, dispatch, run_tools, assistant, says, Outcome, answer, model_failed,
  dispatch_failed, exceeded, final_text, is_tool_use, max_agent_turns, turns, run,
}

-- The calls that a reply asks for, and those that a message answers.
abbrev pub used_ids : List ContentBlock → List String
used_ids [] = []
used_ids (tool_use id name input ∷ blocks) = id ∷ used_ids blocks
used_ids (_ ∷ blocks) = used_ids blocks

abbrev pub answered_ids : List ContentBlock → List String
answered_ids [] = []
answered_ids (tool_result id content is_error ∷ blocks) = id ∷ answered_ids blocks
answered_ids (_ ∷ blocks) = answered_ids blocks

abbrev pub opening : String → List Message
opening prompt = says user (text prompt ∷ []) ∷ []

-- `n` rounds after the prompt, in each of which every call of the reply is answered, in its order.
pub data IsConversation (prompt : String) : ℕ → List Message → Type 0 where
  start : IsConversation prompt 0 (opening prompt)
  round :
      {n : ℕ} {before : List Message} (said blocks : List ContentBlock)
      → IsConversation prompt n before
      → answered_ids blocks ≡ used_ids said
      → IsConversation prompt
          (suc n)
          ((before ++ (says assistant said ∷ [])) ++ (says user blocks ∷ []))

-- Fewer rounds than the maximum, and then the reply `said`.
pub record EndsWith (prompt : String) (said : List ContentBlock) (messages : List Message)
    : Type 0 where
  pub rounds : ℕ
  pub bounded : rounds < max_agent_turns
  pub talk : List Message
  pub conversation : IsConversation prompt rounds talk
  pub ended : messages ≡ talk ++ (says assistant said ∷ [])

-- What the messages are at each outcome.
abbrev pub Ends : String → Outcome → List Message → Type 0
Ends prompt (answer t) ms =
    (said : List ContentBlock) × EndsWith prompt said ms × (t ≡ final_text said)
Ends prompt (model_failed turn) ms = IsConversation prompt turn ms × (turn < max_agent_turns)
Ends prompt (dispatch_failed name) ms = (said : List ContentBlock) × EndsWith prompt said ms
Ends prompt exceeded ms = IsConversation prompt max_agent_turns ms

Dispatched-cases :
    (d : Dispatched)
    → ((bs : List ContentBlock) × (d ≡ results bs)) ⊎ ((n : String) × (d ≡ unknown_tool n))
Dispatched-cases (results bs) = inl (bs, refl)
Dispatched-cases (unknown_tool n) = inr (n, refl)

run_tools-ids :
    (api : Api) (blocks : List ContentBlock) {out : List ContentBlock}
    → run_tools api blocks ≡ results out
    → answered_ids out ≡ used_ids blocks
unfolding run_tools
run_tools-ids api [] h = ground arith
run_tools-ids api (text t ∷ blocks) h = run_tools-ids api blocks h
run_tools-ids api (other t ∷ blocks) h = run_tools-ids api blocks h
run_tools-ids api (tool_result i c e ∷ blocks) h = run_tools-ids api blocks h
run_tools-ids api (tool_use id name input ∷ blocks) h =
    elim (Option-cases (dispatch api name input)) [
      | inl e ↦ ground (arith, e)
      | inr (o, e) ↦ elim (Dispatched-cases (run_tools api blocks)) [
        | inl (rest, q) ↦ ground (arith, e, q, run_tools-ids api blocks q)
        | inr (n, q) ↦ ground (arith, e, q)
      ]
    ]

module _ (model : ℕ → List Message → Option ModelResponse) (api : ℕ → Api) (prompt : String) where
  turns-Ends :
      (turn left : ℕ) (messages : List Message)
      → turn + left ≡ max_agent_turns
      → IsConversation prompt turn messages
      → let out = turns model api turn left messages in Ends prompt out.0 out.1
  unfolding turns
  turns-Ends turn zero messages sum c =
      subst (λ n. IsConversation prompt n messages) (omega (arith, sum)) c
  turns-Ends turn (suc left) messages sum c = elim (Option-cases (model turn messages)) [
    | inl e ↦ rw e (c, omega (arith, sum))
    | inr (r, e) ↦
        let ended : EndsWith prompt r.content (messages ++ (says assistant r.content ∷ [])) =
          record {
            rounds = turn;
            bounded = omega (arith, sum);
            talk = messages;
            conversation = c;
            ended = refl;
          } in
        elim (Bool-cases (is_tool_use r)) [
          | inr q ↦ rw (e, q) (r.content, ended, refl)
          | inl q ↦ elim (Dispatched-cases (run_tools (api turn) r.content)) [
            | inr (name, d) ↦ rw (e, q, d) (r.content, ended)
            | inl (blocks, d) ↦
                rw (e, q, d)
                  (turns-Ends (suc turn) left _ (omega (arith, sum)) (
                    IsConversation.round r.content blocks c (run_tools-ids (api turn) r.content d)))
          ]
        ]
  ]

  -- Every run of the agent ends, within eight replies of the model: with an answer, the first text
  -- of its last reply; with the failure of the model or of an unknown tool; or after eight rounds of
  -- tools. Up to the last reply, each round of the messages has the model's reply and then one
  -- result for each call that it asks for, in its order and under its id.
  pub run-Ends : let out = run model api prompt in Ends prompt out.0 out.1
  unfolding run
  run-Ends = turns-Ends 0 max_agent_turns (opening prompt) refl IsConversation.start
