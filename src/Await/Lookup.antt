-- ===== src/Await/Lookup.antt =====
-- What PushRequest and PushResponse do to the map of the requests that wait.
use brypt_node.Common.{
  ℕ, ◌≡◌, ◌≢◌, refl, ap, sym, ◌∙◌, inl, inr, Bool, false, List, [], ◌∷◌, Option, none, some, ◌==◌,
  Bool-cases, Option-cases, arith,
}
use brypt_node.Message.Application.Defs.{ApplicationMessage, get_await_tracker_key, get_pack}
use brypt_node.Message.Identifier.{Container}
use brypt_node.Await.Tracker.{ResponseTracker, UpdateStatus, tracker_for_many}
use brypt_node.Await.Manager.{
  Awaiting, find_tracker, emplace_tracker, set_tracker, push_request_for_many, push_response,
  push_by_key, store_update, is_accepted, update_by_message,
}

-- A key's tracker after another is put under it: the old one, or the new one where there was none.
abbrev pub or_else : Option ResponseTracker → ResponseTracker → ResponseTracker
or_else none t = t
or_else (some old) t = old

find_tracker-emplace_tracker :
    (key : ℕ) (t : ResponseTracker) (awaiting : List Awaiting)
    → find_tracker key (emplace_tracker key t awaiting)
      ≡ some (or_else (find_tracker key awaiting) t)
unfolding find_tracker emplace_tracker
find_tracker-emplace_tracker key t [] = ground arith
find_tracker-emplace_tracker key t (a ∷ awaiting) = elim (Bool-cases (a.key == key)) [
  | inl same ↦ rw same (rw same refl)
  | inr other ↦ rw other (rw other (find_tracker-emplace_tracker key t awaiting))
]

find_tracker-emplace_other :
    (key other : ℕ) (t : ResponseTracker) (awaiting : List Awaiting)
    → other ≢ key
    → find_tracker other (emplace_tracker key t awaiting) ≡ find_tracker other awaiting
unfolding find_tracker emplace_tracker
find_tracker-emplace_other key other t [] apart = ground (arith, apart)
find_tracker-emplace_other key other t (a ∷ awaiting) apart =
    ground (arith, apart, find_tracker-emplace_other key other t awaiting)

find_tracker-set_tracker :
    (key other : ℕ) (t : ResponseTracker) (awaiting : List Awaiting)
    → other ≢ key
    → find_tracker other (set_tracker key t awaiting) ≡ find_tracker other awaiting
unfolding find_tracker set_tracker
find_tracker-set_tracker key other t [] apart = refl
find_tracker-set_tracker key other t (a ∷ awaiting) apart =
    ground (arith, apart, find_tracker-set_tracker key other t awaiting)

abbrev pair_or : {A B : Type 0} → A × B → Option (A × B) → A × B
pair_or p none = p
pair_or p (some q) = q

some_pair :
    {A B : Type 0} (p q : A × B)
    → ◌≡◌ {A = Option (A × B)} (some p) (some q)
    → (p.0 ≡ q.0) × (p.1 ≡ q.1)
some_pair p q e = (ap (λ o. (pair_or p o).0) e, ap (λ o. (pair_or p o).1) e)

push_cases :
    (key_of : List ℕ → ℕ) (requestor : ℕ) (message : ApplicationMessage)
    (peers : List (Option Container)) (now : ℕ) (awaiting after : List Awaiting) (key : ℕ)
    → push_request_for_many key_of requestor message peers now awaiting ≡ some (key, after)
    → emplace_tracker key (tracker_for_many requestor message peers now) awaiting ≡ after
unfolding push_request_for_many
push_cases key_of requestor message peers now awaiting after key pushed =
    elim (Option-cases (get_pack message)) [
      | inl missing ↦ let h = rw (push_request_for_many, missing) at pushed in ground (arith, h)
      | inr (pack, made) ↦
          let t = tracker_for_many requestor message peers now in
          let h = rw (push_request_for_many, made) at pushed in
          let both =
            some_pair (key_of pack, emplace_tracker (key_of pack) t awaiting) (key, after) h in
          ap (λ k. emplace_tracker k t awaiting) (sym both.0) ∙ both.1
    ]

store_update-frame :
    (key other : ℕ) (awaiting after : List Awaiting) (accepted : Bool)
    (update : Option (UpdateStatus × ResponseTracker))
    → store_update key awaiting update ≡ some (accepted, after)
    → other ≢ key
    → find_tracker other after ≡ find_tracker other awaiting
store_update-frame key other awaiting after accepted none stored apart = ground (arith, stored)
store_update-frame key other awaiting after accepted (some u) stored apart =
    ap (find_tracker other)
      (sym (some_pair (is_accepted u.0, set_tracker key u.1 awaiting) (accepted, after) stored).1)
    ∙ find_tracker-set_tracker key other u.1 awaiting apart

push_by_key-frame :
    (message : ApplicationMessage) (now : ℕ) (awaiting after : List Awaiting) (accepted : Bool)
    (key : Option ℕ) (other : ℕ)
    → push_by_key message now awaiting key ≡ some (accepted, after)
    → key ≢ some other
    → find_tracker other after ≡ find_tracker other awaiting
push_by_key-frame message now awaiting after accepted none other pushed apart =
    ap (find_tracker other) (sym (some_pair (false, awaiting) (accepted, after) pushed).1)
push_by_key-frame message now awaiting after accepted (some key) other pushed apart =
    elim (Option-cases (find_tracker key awaiting)) [
      | inl missing ↦
          let h = rw (push_by_key, missing) at pushed in
          ap (find_tracker other) (sym (some_pair (false, awaiting) (accepted, after) h).1)
      | inr (t, found) ↦
          let h = rw (push_by_key, found) at pushed in
          store_update-frame key other awaiting after accepted (update_by_message t message now) h
            (λ e. apart (ap some (sym e)))
    ]

-- After PushRequest for many peers has returned a key, the map holds under it the tracker that
-- it held before or else a new one for those peers, and under any other key what it held
-- before.
pub find_tracker-push_request :
    (key_of : List ℕ → ℕ) (requestor : ℕ) (message : ApplicationMessage)
    (peers : List (Option Container)) (now : ℕ) (awaiting after : List Awaiting) (key other : ℕ)
    → push_request_for_many key_of requestor message peers now awaiting ≡ some (key, after)
    → (find_tracker key after
        ≡ some (or_else (find_tracker key awaiting) (tracker_for_many requestor message peers now)))
      × (other ≢ key → find_tracker other after ≡ find_tracker other awaiting)
find_tracker-push_request key_of requestor message peers now awaiting after key other pushed =
    let e = push_cases key_of requestor message peers now awaiting after key pushed in
    let t = tracker_for_many requestor message peers now in
    (
      ap (find_tracker key) (sym e) ∙ find_tracker-emplace_tracker key t awaiting,
      λ apart.
          ap (find_tracker other) (sym e) ∙ find_tracker-emplace_other key other t awaiting apart,
    )

-- A PushResponse that returns changes no tracker but the one of the response's key.
pub find_tracker-push_response :
    (message : ApplicationMessage) (now : ℕ) (awaiting after : List Awaiting) (accepted : Bool)
    (other : ℕ)
    → push_response message now awaiting ≡ some (accepted, after)
    → get_await_tracker_key message ≢ some other
    → find_tracker other after ≡ find_tracker other awaiting
unfolding push_response
find_tracker-push_response message now awaiting after accepted other pushed apart =
    push_by_key-frame message now awaiting after accepted _ other pushed apart
