-- ===== src/Await/Fulfilment.antt =====
-- When the tracker of a request reports that the request is fulfilled.
use brypt_node.Common.{
  ℕ, ◌≡◌, refl, inl, inr, ◌↔◌, true, false, List, [], ◌∷◌, length, Bool-cases, arith,
}
use brypt_node.Message.Identifier.{Container}
use brypt_node.Await.Tracker.{
  UpdateStatus, ResponseEntry, ResponseTracker, has_room, refuse, count, find, set_pack,
  update_response,
}
use brypt_node.Await.Counting.{
  answered, answered-le, IsCounted, responses-count, fulfilled-count, refuse-unfulfilled,
  length-set_pack, answered-set_pack_room,
}

-- Every entry of the tracker holds a response.
abbrev pub IsComplete : ResponseTracker → Type 0
IsComplete t = answered t.responses ≡ length t.responses

pub completed_by_count :
    (t : ResponseTracker) (key b : ℕ) (bs : List ℕ)
    → IsCounted t
    → t.expected ≡ length t.responses
    → has_room (find key t.responses) ≡ true
    → ((count (record t { responses = set_pack key (b ∷ bs) t.responses })).0
        ≡ UpdateStatus.fulfilled)
      ↔ IsComplete (count (record t { responses = set_pack key (b ∷ bs) t.responses })).1
completed_by_count t key b bs counted expected room =
    let stored = record t { responses = set_pack key (b ∷ bs) t.responses } in
    let r = answered-set_pack_room key b bs t.responses room in
    let l = length-set_pack key (b ∷ bs) t.responses in
    let le = answered-le stored.responses in
    let i = counted.counted in
    let p = counted.peers_fit in
    let f = fulfilled-count stored (omega arith) in
    rw (responses-count stored) ((λ e. let h = f.0 e in omega arith), (λ e. f.1 (omega arith)))

pub update_response_full :
    (t : ResponseTracker) (source : Container) (pack : List ℕ) (now : ℕ)
    → has_room (find source.internal_representation t.responses) ≡ false
    → update_response t source pack now ≡ refuse t now
unfolding update_response
update_response_full t source pack now full = rw full

pub update_response_room :
    (t : ResponseTracker) (source : Container) (pack : List ℕ) (now : ℕ)
    → has_room (find source.internal_representation t.responses) ≡ true
    → update_response t source pack now
      ≡ count (record t { responses = set_pack source.internal_representation pack t.responses })
unfolding update_response
update_response_room t source pack now room = rw room

-- UpdateResponse with a response that is not empty, on a tracker that counts its answered
-- entries and expects one response for each entry, reports that the request is fulfilled
-- exactly when the source has an entry with no response yet and then every entry has one.
pub fulfilled-update_response :
    (t : ResponseTracker) (source : Container) (b : ℕ) (bs : List ℕ) (now : ℕ)
    → IsCounted t
    → t.expected ≡ length t.responses
    → ((update_response t source (b ∷ bs) now).0 ≡ UpdateStatus.fulfilled) ↔ (
        (has_room (find source.internal_representation t.responses) ≡ true)
        × IsComplete (update_response t source (b ∷ bs) now).1)
fulfilled-update_response t source b bs now counted expected =
    elim (Bool-cases (has_room (find source.internal_representation t.responses))) [
      | inl room ↦
          let key = source.internal_representation in
          let c = completed_by_count t key b bs counted expected room in
          rw (update_response_room t source (b ∷ bs) now room)
            ((λ e. (room, c.0 e)), (λ h. c.1 h.1))
      | inr full ↦
          rw (update_response_full t source (b ∷ bs) now full)
            ((λ e. elim (refuse-unfulfilled t now e) [ ]), (λ h. ground (arith, full, h)))
    ]

room-set_pack :
    (key b : ℕ) (bs : List ℕ) (es : List ResponseEntry)
    → has_room (find key (set_pack key (b ∷ bs) es)) ≡ false
unfolding find set_pack
room-set_pack key b bs [] = refl
room-set_pack key b bs (e ∷ es) = ground (arith, room-set_pack key b bs es)

-- After UpdateResponse with a response that is not empty, another response of the same source
-- is refused and changes nothing.
pub update_response_twice :
    (t : ResponseTracker) (source : Container) (b : ℕ) (bs second : List ℕ) (now later : ℕ)
    → update_response (update_response t source (b ∷ bs) now).1 source second later
      ≡ refuse (update_response t source (b ∷ bs) now).1 later
unfolding refuse
update_response_twice t source b bs second now later =
    elim (Bool-cases (has_room (find source.internal_representation t.responses))) [
      | inl room ↦ rw (update_response_room t source (b ∷ bs) now room) (
          update_response_full _ source second later (
            rw
              (responses-count (record t {
                responses = set_pack source.internal_representation (b ∷ bs) t.responses;
              }))
              (room-set_pack source.internal_representation b bs t.responses)))
      | inr full ↦
          rw (update_response_full t source (b ∷ bs) now full)
            (update_response_full t source second later full)
    ]
