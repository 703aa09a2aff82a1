-- ===== src/Await/Starvation.antt =====
-- Trackers that the constructor for many peers makes: one that passed a peer over waits until it
-- expires.
use brypt_node.Common.{
  ℕ, ◌+◌, ◌%◌, ◌^◌, ◌≤◌, ◌<◌, ◌≡◌, refl, sym, ◌∙◌, inl, inr, Bool, true, false, ◌||◌, List, [], ◌∷◌,
  Option, none, some, length, Bool-cases, arith,
}
use native.Mathlib.Nat.{mod-eq_of_lt}
use brypt_node.Message.Identifier.{Container, same_identifier}
use brypt_node.Message.Application.Defs.{ApplicationMessage}
use brypt_node.Await.Tracker.{
  ResponseStatus, ResponseEntry, ResponseTracker, has_room, refuse, count, find, emplace, set_pack,
  enter_all, tracker_for_many, expiration_period, update_response, check_response_status,
}
use brypt_node.Await.Counting.{
  answered, answered-le, IsCounted, responses-count, count-IsCounted, expected-count,
  length-set_pack, answered-set_pack_room,
}
use brypt_node.Await.Fulfilment.{update_response_full, update_response_room}

-- What the constructor for many peers passes over: a null pointer, and the source of the request.
abbrev pub is_skipped : Container → Option Container → Bool
is_skipped source none = true
is_skipped source (some c) = same_identifier c source

unfoldable pub some_skipped : Container → List (Option Container) → Bool
some_skipped source [] = false
some_skipped source (p ∷ peers) = is_skipped source p || some_skipped source peers

length-emplace :
    (entry : ResponseEntry) (es : List ResponseEntry) → length (emplace entry es) ≤ length es + 1
unfolding emplace
length-emplace entry [] = omega arith
length-emplace entry (e ∷ es) = ground (arith, length-emplace entry es)

length-enter_all :
    (source : Container) (peers : List (Option Container)) (es : List ResponseEntry)
    → length (enter_all source peers es) ≤ length es + length peers
unfolding enter_all
length-enter_all source [] es = omega arith
length-enter_all source (none ∷ peers) es = ground (arith, length-enter_all source peers es)
length-enter_all source (some c ∷ peers) es =
    let l = length-emplace (record { identifier = c; pack = [] }) es in
    elim (Bool-cases (same_identifier c source)) [
      | inl same ↦ rw same (let h = length-enter_all source peers es in omega arith)
      | inr other ↦ rw other (
          let h =
            length-enter_all source peers (emplace (record { identifier = c; pack = [] }) es) in
          omega arith)
    ]

length-enter_all_skipped :
    (source : Container) (peers : List (Option Container)) (es : List ResponseEntry)
    → some_skipped source peers ≡ true
    → length (enter_all source peers es) < length es + length peers
unfolding enter_all some_skipped
length-enter_all_skipped source [] es skipped = ground (arith, skipped)
length-enter_all_skipped source (none ∷ peers) es skipped =
    let h = length-enter_all source peers es in omega arith
length-enter_all_skipped source (some c ∷ peers) es skipped =
    let l = length-emplace (record { identifier = c; pack = [] }) es in
    elim (Bool-cases (same_identifier c source)) [
      | inl same ↦ rw same (let h = length-enter_all source peers es in omega arith)
      | inr other ↦
          let s : some_skipped source peers ≡ true = ground (arith, skipped, other) in
          rw other (
            let h =
              length-enter_all_skipped source peers
                (emplace (record { identifier = c; pack = [] }) es) s in
            omega arith)
    ]

-- A response that arrives: its source, its pack, which is not empty, and the time.
pub record Arrival : Type 0 where
  pub source : Container
  pub first : ℕ
  pub others : List ℕ
  pub time : ℕ

unfoldable pub after_arrivals : List Arrival → ResponseTracker → ResponseTracker
after_arrivals [] t = t
after_arrivals (a ∷ arrivals) t =
    after_arrivals arrivals (update_response t a.source (a.first ∷ a.others) a.time).1

-- Such a tracker has fewer entries than it expects responses.
record IsStarved (end : ℕ) (t : ResponseTracker) : Type 0 where
  deadline : t.expire ≡ end
  is_counted : IsCounted t
  fewer : length t.responses < t.expected
  fits : t.expected < 2 ^ 32
  waiting : t.status ≡ ResponseStatus.unfulfilled

pub expire-count : (t : ResponseTracker) → (count t).1.expire ≡ t.expire
unfolding count
expire-count t = ground arith

count-waiting :
    (t : ResponseTracker)
    → t.received + 1 < t.expected
    → t.expected < 2 ^ 32
    → (count t).1.status ≡ t.status
unfolding count
count-waiting t few fits =
    let m : (t.received + 1) % 2 ^ 32 ≡ t.received + 1 = mod-eq_of_lt (omega arith) in
    ground (arith, m)

count-IsStarved :
    (end : ℕ) (t : ResponseTracker) (key b : ℕ) (bs : List ℕ)
    → IsStarved end t
    → has_room (find key t.responses) ≡ true
    → IsStarved end (count (record t { responses = set_pack key (b ∷ bs) t.responses })).1
count-IsStarved end t key b bs starved room =
    let stored : ResponseTracker = record t { responses = set_pack key (b ∷ bs) t.responses } in
    let r = answered-set_pack_room key b bs t.responses room in
    let l = length-set_pack key (b ∷ bs) t.responses in
    let le = answered-le stored.responses in
    let i = starved.is_counted.counted in
    let f = starved.fewer in
    record {
      deadline = expire-count stored ∙ starved.deadline;
      is_counted = count-IsCounted t key b bs starved.is_counted room;
      fewer = rw (responses-count stored, expected-count stored, l) f;
      fits = rw (expected-count stored) starved.fits;
      waiting = count-waiting stored (omega arith) starved.fits ∙ starved.waiting;
    }

update_response-IsStarved :
    (end : ℕ) (t : ResponseTracker) (source : Container) (b : ℕ) (bs : List ℕ) (now : ℕ)
    → IsStarved end t
    → IsStarved end (update_response t source (b ∷ bs) now).1
unfolding refuse
update_response-IsStarved end t source b bs now starved =
    elim (Bool-cases (has_room (find source.internal_representation t.responses))) [
      | inl room ↦
          rw (update_response_room t source (b ∷ bs) now room)
            (count-IsStarved end t source.internal_representation b bs starved room)
      | inr full ↦ rw (update_response_full t source (b ∷ bs) now full) starved
    ]

after_arrivals-IsStarved :
    (end : ℕ) (arrivals : List Arrival) (t : ResponseTracker)
    → IsStarved end t
    → IsStarved end (after_arrivals arrivals t)
unfolding after_arrivals
after_arrivals-IsStarved end [] t starved = starved
after_arrivals-IsStarved end (a ∷ arrivals) t starved =
    after_arrivals-IsStarved end arrivals _
      (update_response-IsStarved end t a.source a.first a.others a.time starved)

answered-emplace :
    (c : Container) (es : List ResponseEntry)
    → answered (emplace (record { identifier = c; pack = [] }) es) ≡ answered es
unfolding answered emplace
answered-emplace c [] = refl
answered-emplace c (e ∷ es) = ground (arith, answered-emplace c es)

pub answered_none :
    (source : Container) (peers : List (Option Container)) (es : List ResponseEntry)
    → answered es ≡ 0
    → answered (enter_all source peers es) ≡ 0
unfolding enter_all
answered_none source [] es none_yet = none_yet
answered_none source (none ∷ peers) es none_yet = answered_none source peers es none_yet
answered_none source (some c ∷ peers) es none_yet = elim (Bool-cases (same_identifier c source)) [
  | inl same ↦ rw same (answered_none source peers es none_yet)
  | inr other ↦ rw other (answered_none source peers _ (answered-emplace c es ∙ none_yet))
]

make-IsStarved :
    (requestor : ℕ) (request : ApplicationMessage) (peers : List (Option Container)) (now : ℕ)
    → some_skipped request.header.source peers ≡ true
    → length peers < 2 ^ 32
    → IsStarved (now + expiration_period) (tracker_for_many requestor request peers now)
unfolding tracker_for_many answered
make-IsStarved requestor request peers now skipped fits =
    let l = length-enter_all_skipped request.header.source peers [] skipped in
    let m = mod-eq_of_lt fits in
    record {
      deadline = refl;
      is_counted = record {
        counted = sym (answered_none request.header.source peers [] refl);
        peers_fit = omega arith;
      };
      fewer = omega (arith, m, l);
      fits = omega (arith, m);
      waiting = refl;
    }

starved_waits :
    (end : ℕ) (t : ResponseTracker) (later : ℕ)
    → IsStarved end t
    → later ≤ end
    → (check_response_status t later).0 ≡ ResponseStatus.unfulfilled
unfolding check_response_status
starved_waits end t later starved early =
    let d = starved.deadline in
    let c = starved.is_counted.counted in
    let le = answered-le t.responses in
    let f = starved.fewer in let w = starved.waiting in ground (arith, w)

-- A tracker that is made for fewer than 2 ^ 32 peers, at least one of them a null pointer or
-- the source of the request, is not fulfilled before it expires, whatever responses that are
-- not empty arrive.
pub unfulfilled_before_expiry :
    (requestor : ℕ) (request : ApplicationMessage) (peers : List (Option Container)) (now : ℕ)
    (arrivals : List Arrival) (later : ℕ)
    → some_skipped request.header.source peers ≡ true
    → length peers < 2 ^ 32
    → later ≤ now + expiration_period
    → (check_response_status
        (after_arrivals arrivals (tracker_for_many requestor request peers now))
        later).0
      ≡ ResponseStatus.unfulfilled
unfulfilled_before_expiry requestor request peers now arrivals later skipped fits early =
    starved_waits _ _ later
      (after_arrivals-IsStarved _ arrivals _
        (make-IsStarved requestor request peers now skipped fits))
      early
