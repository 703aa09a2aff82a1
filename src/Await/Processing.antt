-- ===== src/Await/Processing.antt =====
-- What the tracking manager does with the requests that wait.
use brypt_node.Common.{
  ℕ, ◌<◌, ◌≡◌, refl, ap, sym, ◌∙◌, inl, inr, ◌⊎◌, Bool, false, ◌||◌, List, [], ◌∷◌, map, ltb, ◌==◌,
  All, Bool-cases, arith,
}
use brypt_node.Await.Tracker.{
  ResponseStatus, ResponseTracker, check_response_status, Outside, Sent, fault, returned,
  send_fulfilled_response,
}
use brypt_node.Await.Manager.{
  Awaiting, Processed, after_send, process_one, process_fulfilled_requests,
}

-- A check that does not report the request fulfilled leaves the tracker alone.
abbrev Kept : ResponseTracker → ResponseStatus → ResponseStatus × ResponseTracker → Type 0
Kept t s result = result ≡ (s, t)

status-Kept :
    (s : ResponseStatus) (t : ResponseTracker)
    → (s ≡ ResponseStatus.fulfilled)
      ⊎ (Kept t ResponseStatus.unfulfilled (s, t) ⊎ Kept t ResponseStatus.completed (s, t))
status-Kept ResponseStatus.fulfilled t = inl refl
status-Kept ResponseStatus.unfulfilled t = inr (inl refl)
status-Kept ResponseStatus.completed t = inr (inr refl)

check_cases :
    (t : ResponseTracker) (now : ℕ)
    → ((check_response_status t now).0 ≡ ResponseStatus.fulfilled)
      ⊎ (Kept t ResponseStatus.unfulfilled (check_response_status t now)
          ⊎ Kept t ResponseStatus.completed (check_response_status t now))
unfolding check_response_status
check_cases t now = elim (Bool-cases ((t.received == t.expected) || ltb t.expire now)) [
  | inl done ↦ inl (rw done refl)
  | inr wait ↦ rw wait (status-Kept t.status t)
]

process-Kept :
    (o : Outside) (now : ℕ) (a : Awaiting) (rest : List Awaiting)
    → (Kept a.tracker ResponseStatus.unfulfilled (check_response_status a.tracker now)
        ⊎ Kept a.tracker ResponseStatus.completed (check_response_status a.tracker now))
    → process_fulfilled_requests o now (a ∷ rest) ≡ record (process_fulfilled_requests o now rest) {
      awaiting = a ∷ (process_fulfilled_requests o now rest).awaiting;
    }
unfolding process_fulfilled_requests
process-Kept o now a rest (inl kept) = rw kept
process-Kept o now a rest (inr kept) = rw kept

-- What a request that is fulfilled leaves.
abbrev Dropped : Outside → ℕ → Awaiting → List Awaiting → Bool → Type 0
Dropped o now a rest b =
    process_fulfilled_requests o now (a ∷ rest) ≡ record (process_fulfilled_requests o now rest) {
      sent = (a.key, b) ∷ (process_fulfilled_requests o now rest).sent;
    }

after_send_cases :
    (key : ℕ) (rest : List Awaiting) (p : Processed) (s : Sent × ResponseTracker)
    → (after_send key rest p s).is_faulted ≡ false
    → (b : Bool) × (after_send key rest p s ≡ record p { sent = (key, b) ∷ p.sent })
after_send_cases key rest p (fault, t) fine = ground (arith, fine)
after_send_cases key rest p (returned b, t) fine = (b, refl)

process_one-fulfilled :
    (o : Outside) (now key : ℕ) (rest : List Awaiting) (p : Processed)
    (c : ResponseStatus × ResponseTracker)
    → c.0 ≡ ResponseStatus.fulfilled
    → process_one o now key rest p c ≡ after_send key rest p (send_fulfilled_response o c.1 now)
process_one-fulfilled o now key rest p (ResponseStatus.fulfilled, t) e = refl
process_one-fulfilled o now key rest p (ResponseStatus.unfulfilled, t) e = ground (arith, e)
process_one-fulfilled o now key rest p (ResponseStatus.completed, t) e = ground (arith, e)

process-Dropped :
    (o : Outside) (now : ℕ) (a : Awaiting) (rest : List Awaiting)
    → (check_response_status a.tracker now).0 ≡ ResponseStatus.fulfilled
    → (process_fulfilled_requests o now (a ∷ rest)).is_faulted ≡ false
    → (b : Bool) × Dropped o now a rest b
unfolding process_fulfilled_requests
process-Dropped o now a rest done fine =
    let c = check_response_status a.tracker now in
    let p = process_fulfilled_requests o now rest in
    let one = process_one-fulfilled o now a.key rest p c done in
    let ok = sym (ap (λ q. q.is_faulted) one) ∙ fine in
    let s = after_send_cases a.key rest p (send_fulfilled_response o c.1 now) ok in (s.0, one ∙ s.1)

process-none :
    (o : Outside) (now : ℕ)
    → process_fulfilled_requests o now (process_fulfilled_requests o now []).awaiting ≡ record {
      is_faulted = false;
      sent = [];
      awaiting = (process_fulfilled_requests o now []).awaiting;
    }
unfolding process_fulfilled_requests
process-none o now = refl

-- If no exception ended ProcessFulfilledRequests, a second run at the same time sends nothing
-- and changes nothing.
pub process_fulfilled_requests_twice :
    (o : Outside) (now : ℕ) (awaiting : List Awaiting)
    → (process_fulfilled_requests o now awaiting).is_faulted ≡ false
    → process_fulfilled_requests o now (process_fulfilled_requests o now awaiting).awaiting
      ≡ record {
        is_faulted = false;
        sent = [];
        awaiting = (process_fulfilled_requests o now awaiting).awaiting;
      }
process_fulfilled_requests_twice o now [] fine = process-none o now
process_fulfilled_requests_twice o now (a ∷ rest) fine = elim (check_cases a.tracker now) [
  | inl done ↦
      let d = process-Dropped o now a rest done fine in
      let ok = sym (ap (λ p. p.is_faulted) d.1) ∙ fine in
      rw d.1 (process_fulfilled_requests_twice o now rest ok)
  | inr kept ↦
      let k = process-Kept o now a rest kept in
      let ok = sym (ap (λ p. p.is_faulted) k) ∙ fine in
      let twice = process_fulfilled_requests_twice o now rest ok in
      rw (k, process-Kept o now a (process_fulfilled_requests o now rest).awaiting kept, twice)
]

check_expired :
    (t : ResponseTracker) (now : ℕ)
    → t.expire < now
    → (check_response_status t now).0 ≡ ResponseStatus.fulfilled
unfolding check_response_status
check_expired t now late = ground arith

processed_none :
    (o : Outside) (now : ℕ)
    → ((process_fulfilled_requests o now []).awaiting ≡ [])
      × (map (λ s. s.0) (process_fulfilled_requests o now []).sent ≡ [])
unfolding process_fulfilled_requests
processed_none o now = (refl, refl)

-- If every request has expired and no exception ends ProcessFulfilledRequests, it handles each
-- request once, in the order of the map, and leaves none.
pub process_fulfilled_requests_expired :
    (o : Outside) (now : ℕ) (awaiting : List Awaiting)
    → All (λ a. a.tracker.expire < now) awaiting
    → (process_fulfilled_requests o now awaiting).is_faulted ≡ false
    → ((process_fulfilled_requests o now awaiting).awaiting ≡ [])
      × (map (λ s. s.0) (process_fulfilled_requests o now awaiting).sent
          ≡ map (λ a. a.key) awaiting)
process_fulfilled_requests_expired o now [] late fine = processed_none o now
process_fulfilled_requests_expired o now (a ∷ rest) late fine =
    let d = process-Dropped o now a rest (check_expired a.tracker now late.0) fine in
    let ok = sym (ap (λ p. p.is_faulted) d.1) ∙ fine in
    let h = process_fulfilled_requests_expired o now rest late.1 ok in
    rw d.1 (h.0, ap (λ keys. a.key ∷ keys) h.1)
