-- ===== src/Await/Roster.antt =====
-- Trackers that the constructor for many peers makes when it passes over none of them.
use brypt_node.Common.{
  ℕ, ◌+◌, ◌^◌, ◌≤◌, ◌<◌, ◌≡◌, refl, sym, ◌∙◌, Bool, true, false, not, ◌&&◌, List, [], ◌∷◌, Option,
  none, some, length, ◌==◌, Bool-cases, arith, inl, inr, ◌⊎◌, ◌↔◌, ==_iff, ltb,
}
use native.Mathlib.Nat.{mod-eq_of_lt}
use brypt_node.Message.Identifier.{Container, same_identifier}
use brypt_node.Message.Application.Defs.{ApplicationMessage}
use brypt_node.Await.Counting.{
  answered, answered-le, IsCounted, count-IsCounted, responses-count, expected-count,
  length-set_pack, answered-set_pack_room,
}
use brypt_node.Await.Fulfilment.{
  IsComplete, completed_by_count, update_response_full, update_response_room,
}
use brypt_node.Await.Starvation.{Arrival, after_arrivals, answered_none, expire-count}
use brypt_node.Await.Tracker.{
  ResponseStatus, UpdateStatus, count, has_room, set_pack, update_response, check_response_status,
  expiration_period, refuse, ResponseEntry, peer_identifier, ResponseTracker, find, emplace,
  enter_all, tracker_for_many,
}

-- No peer of the list has the key.
abbrev pub is_key : ℕ → Option Container → Bool
is_key key none = false
is_key key (some c) = c.internal_representation == key

unfoldable pub lacks : ℕ → List (Option Container) → Bool
lacks key [] = true
lacks key (p ∷ peers) = not (is_key key p) && lacks key peers

-- Every pointer is set, no peer is the source, and no two have the same identifier.
abbrev pub may_enter : Container → Option Container → List (Option Container) → Bool
may_enter source none peers = false
may_enter source (some c) peers =
    not (same_identifier c source) && lacks c.internal_representation peers

unfoldable pub is_roster : Container → List (Option Container) → Bool
unfolding lacks
is_roster source [] = true
is_roster source (p ∷ peers) = may_enter source p peers && is_roster source peers

-- No entry of the container has the key of a peer of the list.
unfoldable all_lack : List ResponseEntry → List (Option Container) → Bool
unfolding lacks
all_lack [] peers = true
all_lack (e ∷ es) peers = lacks (peer_identifier e) peers && all_lack es peers

length-emplace_new :
    (c : Container) (es : List ResponseEntry) (peers : List (Option Container))
    → all_lack es (some c ∷ peers) ≡ true
    → length (emplace (record { identifier = c; pack = [] }) es) ≡ length es + 1
unfolding all_lack emplace lacks
length-emplace_new c [] peers new = refl
length-emplace_new c (e ∷ es) peers new = ground (arith, length-emplace_new c es peers)

all_lack-emplace :
    (c : Container) (es : List ResponseEntry) (peers : List (Option Container))
    → all_lack es (some c ∷ peers) ≡ true
    → lacks c.internal_representation peers ≡ true
    → all_lack (emplace (record { identifier = c; pack = [] }) es) peers ≡ true
unfolding all_lack emplace lacks
all_lack-emplace c [] peers new apart = ground (arith, apart)
all_lack-emplace c (e ∷ es) peers new apart = ground (arith, all_lack-emplace c es peers)

roster_head :
    (source c : Container) (peers : List (Option Container)) (es : List ResponseEntry)
    → is_roster source (some c ∷ peers) ≡ true
    → all_lack es (some c ∷ peers) ≡ true
    → (same_identifier c source ≡ false)
      × (all_lack (emplace (record { identifier = c; pack = [] }) es) peers ≡ true)
      × (is_roster source peers ≡ true)
unfolding is_roster
roster_head source c peers es roster new =
    let apart : lacks c.internal_representation peers ≡ true = ground (arith, roster) in
    (ground (arith, roster), all_lack-emplace c es peers new apart, ground (arith, roster))

length-enter_all_roster :
    (source : Container) (peers : List (Option Container)) (es : List ResponseEntry)
    → is_roster source peers ≡ true
    → all_lack es peers ≡ true
    → length (enter_all source peers es) ≡ length es + length peers
unfolding is_roster enter_all
length-enter_all_roster source [] es roster new = omega arith
length-enter_all_roster source (none ∷ peers) es roster new = ground (arith, roster)
length-enter_all_roster source (some c ∷ peers) es roster new =
    let h = roster_head source c peers es roster new in
    let n = length-emplace_new c es peers new in
    let r = length-enter_all_roster source peers _ h.2 h.1 in rw h.0 (omega (arith, n, r))

-- A tracker that expects one response for each of its entries.
pub record IsFair (t : ResponseTracker) : Type 0 where
  is_counted : IsCounted t
  one_each : t.expected ≡ length t.responses
  honest : t.status ≡ ResponseStatus.fulfilled → IsComplete t

tracker_for_many-IsFair :
    (requestor : ℕ) (request : ApplicationMessage) (peers : List (Option Container)) (now : ℕ)
    → is_roster request.header.source peers ≡ true
    → length peers < 2 ^ 32
    → IsFair (tracker_for_many requestor request peers now)
unfolding tracker_for_many answered all_lack
tracker_for_many-IsFair requestor request peers now roster fits =
    let l = length-enter_all_roster request.header.source peers [] roster refl in
    let m = mod-eq_of_lt fits in
    record {
      is_counted = record {
        counted = sym (answered_none request.header.source peers [] refl);
        peers_fit = omega arith;
      };
      one_each = omega (arith, m, l);
      honest = λ e. ground (arith, e);
    }

status-count :
    (t : ResponseTracker)
    → (count t).1.status ≡ ResponseStatus.fulfilled
    → ((count t).0 ≡ UpdateStatus.fulfilled) ⊎ (t.status ≡ ResponseStatus.fulfilled)
unfolding count
status-count t done = ground (arith, done)

count-IsFair :
    (t : ResponseTracker) (key b : ℕ) (bs : List ℕ)
    → IsFair t
    → has_room (find key t.responses) ≡ true
    → IsFair (count (record t { responses = set_pack key (b ∷ bs) t.responses })).1
count-IsFair t key b bs fair room =
    let stored : ResponseTracker = record t { responses = set_pack key (b ∷ bs) t.responses } in
    let l = length-set_pack key (b ∷ bs) t.responses in
    let r = answered-set_pack_room key b bs t.responses room in
    let le = answered-le stored.responses in
    let c = fair.is_counted in
    record {
      is_counted = count-IsCounted t key b bs c room;
      one_each = rw (responses-count stored, expected-count stored, l) fair.one_each;
      honest = λ e. elim (status-count stored e) [
        | inl now_done ↦ (completed_by_count t key b bs c fair.one_each room).0 now_done
        | inr was_done ↦ (let h = fair.honest was_done in omega arith)
      ];
    }

update_response-IsFair :
    (t : ResponseTracker) (source : Container) (b : ℕ) (bs : List ℕ) (now : ℕ)
    → IsFair t
    → IsFair (update_response t source (b ∷ bs) now).1
unfolding refuse
update_response-IsFair t source b bs now fair =
    elim (Bool-cases (has_room (find source.internal_representation t.responses))) [
      | inl room ↦
          rw (update_response_room t source (b ∷ bs) now room)
            (count-IsFair t source.internal_representation b bs fair room)
      | inr full ↦ rw (update_response_full t source (b ∷ bs) now full) fair
    ]

after_arrivals-IsFair :
    (arrivals : List Arrival) (t : ResponseTracker) → IsFair t → IsFair (after_arrivals arrivals t)
unfolding after_arrivals
after_arrivals-IsFair [] t fair = fair
after_arrivals-IsFair (a ∷ arrivals) t fair =
    after_arrivals-IsFair arrivals _
      (update_response-IsFair t a.source a.first a.others a.time fair)

expire-update_response :
    (t : ResponseTracker) (source : Container) (pack : List ℕ) (now : ℕ)
    → (update_response t source pack now).1.expire ≡ t.expire
unfolding refuse
expire-update_response t source pack now =
    elim (Bool-cases (has_room (find source.internal_representation t.responses))) [
      | inl room ↦ rw (update_response_room t source pack now room) (expire-count _)
      | inr full ↦ rw (update_response_full t source pack now full)
    ]

expire-after_arrivals :
    (arrivals : List Arrival) (t : ResponseTracker) → (after_arrivals arrivals t).expire ≡ t.expire
unfolding after_arrivals
expire-after_arrivals [] t = refl
expire-after_arrivals (a ∷ arrivals) t =
    expire-after_arrivals arrivals _ ∙ expire-update_response t a.source (a.first ∷ a.others) a.time

fair-check :
    (t : ResponseTracker) (later : ℕ)
    → IsFair t
    → later ≤ t.expire
    → ((check_response_status t later).0 ≡ ResponseStatus.fulfilled) ↔ IsComplete t
unfolding check_response_status
fair-check t later fair early =
    let c = fair.is_counted.counted in
    let o = fair.one_each in
    let h = fair.honest in
    elim (Bool-cases (t.received == t.expected)) [
      | inl all_in ↦ (
        (λ e. let i = (==_iff t.received t.expected).0 all_in in omega arith),
        (λ d. rw all_in refl),
      )
      | inr missing ↦
          let in_time : ltb t.expire later ≡ false = ground arith in
          rw (missing, in_time) (h, λ d. ground (arith, d, missing))
    ]

-- A tracker that is made for fewer than 2 ^ 32 peers, none of them null or the source of the
-- request and no two the same, is fulfilled before it expires, after any responses that are not
-- empty, exactly when every entry has a response.
pub fulfilled_by_all :
    (requestor : ℕ) (request : ApplicationMessage) (peers : List (Option Container)) (now : ℕ)
    (arrivals : List Arrival) (later : ℕ)
    → is_roster request.header.source peers ≡ true
    → length peers < 2 ^ 32
    → later ≤ now + expiration_period
    → ((check_response_status
          (after_arrivals arrivals (tracker_for_many requestor request peers now))
          later).0
        ≡ ResponseStatus.fulfilled)
      ↔ IsComplete (after_arrivals arrivals (tracker_for_many requestor request peers now))
unfolding tracker_for_many
fulfilled_by_all requestor request peers now arrivals later roster fits early =
    fair-check _ later
      (after_arrivals-IsFair arrivals _
        (tracker_for_many-IsFair requestor request peers now roster fits))
      (rw (expire-after_arrivals arrivals (tracker_for_many requestor request peers now)) early)
