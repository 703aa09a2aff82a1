-- ===== src/MessageControl/Queue.antt =====
-- The queue of messages that wait for the node.
use brypt_node.Common.{
  ℕ, zero, suc, ◌≡◌, refl, ap, sym, ◌∙◌, List, [], ◌∷◌, ◌++◌, Option, none, some, length,
  append_assoc, append-nil,
}
use brypt_node.Message.Application.Defs.{ApplicationMessage}
use brypt_node.MessageControl.Authorized.{
  Processor, queue_message, pop_incoming_message, queued_message_count,
}

-- A processor after messages of peers are queued one after the other.
unfoldable pub queue_all : List (ℕ × ApplicationMessage) → Processor → Processor
queue_all [] p = p
queue_all (message ∷ messages) p =
    queue_all messages (queue_message p message.0 message.1).processor

abbrev pub prepend :
    Option (ℕ × ApplicationMessage)
    → List (ℕ × ApplicationMessage) × Processor
    → List (ℕ × ApplicationMessage) × Processor
prepend none rest = rest
prepend (some message) rest = (message ∷ rest.0, rest.1)

-- What so many calls of PopIncomingMessage return.
unfoldable pub pop_times : ℕ → Processor → List (ℕ × ApplicationMessage) × Processor
pop_times zero p = ([], p)
pop_times (suc n) p = prepend (pop_incoming_message p).0 (pop_times n (pop_incoming_message p).1)

queue_all_lem :
    (messages : List (ℕ × ApplicationMessage)) (p : Processor)
    → queue_all messages p ≡ record p { incoming = p.incoming ++ messages }
unfolding queue_all queue_message
queue_all_lem [] p = ap (λ q. record p { incoming = q }) (sym (append-nil p.incoming))
queue_all_lem (message ∷ messages) p =
    queue_all_lem messages (record p { incoming = p.incoming ++ (message ∷ []) })
    ∙ ap (λ q. record p { incoming = q }) (append_assoc p.incoming (message ∷ []) messages)

pop_times_lem :
    (messages rest : List (ℕ × ApplicationMessage)) (p : Processor)
    → pop_times (length messages) (record p { incoming = messages ++ rest })
      ≡ (messages, record p { incoming = rest })
unfolding pop_times pop_incoming_message
pop_times_lem [] rest p = refl
pop_times_lem (message ∷ messages) rest p =
    ap (λ r. (message ∷ r.0, r.1)) (pop_times_lem messages rest p)

-- Of a processor with an empty queue, as many pops as messages were queued return those messages,
-- with their peers, in the order in which they were queued, and leave the processor as it was.
pub pop_times-queue_all :
    (messages : List (ℕ × ApplicationMessage)) (p : Processor)
    → p.incoming ≡ []
    → (queued_message_count (queue_all messages p) ≡ length messages)
      × (pop_times (length messages) (queue_all messages p) ≡ (messages, p))
unfolding queued_message_count
pop_times-queue_all messages p empty =
    let all = queue_all_lem messages p ∙ ap (λ q. record p { incoming = q ++ messages }) empty in
    (
      ap (λ q. length q.incoming) all,
      ap (pop_times (length messages))
            (all ∙ ap (λ q. record p { incoming = q }) (sym (append-nil messages)))
          ∙ pop_times_lem messages [] p
          ∙ ap (λ q. (messages, record p { incoming = q })) (sym empty),
    )
