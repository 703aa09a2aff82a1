-- ===== src/Await/Counting.antt =====
-- How a tracker counts the responses of its peers.
use brypt_node.Common.{
  ℕ, ◌+◌, ◌%◌, ◌^◌, ◌≤◌, ◌<◌, ◌≡◌, ◌≢◌, refl, ap, sym, ◌∙◌, ◌↔◌, true, List, [], ◌∷◌, length, ◌==◌,
  arith,
}
use native.Mathlib.Nat.{mod-eq_of_lt}
use brypt_node.Await.Tracker.{
  UpdateStatus, ResponseEntry, ResponseTracker, find, set_pack, has_room, refuse, count,
}

abbrev is_answered : List ℕ → ℕ
is_answered [] = 0
is_answered (b ∷ bs) = 1

-- The entries that hold a response.
unfoldable pub answered : List ResponseEntry → ℕ
answered [] = 0
answered (e ∷ es) = is_answered e.pack + answered es

pub answered-le : (es : List ResponseEntry) → answered es ≤ length es
unfolding answered
answered-le [] = omega arith
answered-le (e ∷ es) = ground (arith, answered-le es)

pub length-set_pack :
    (key : ℕ) (pack : List ℕ) (es : List ResponseEntry) → length (set_pack key pack es) ≡ length es
unfolding set_pack
length-set_pack key pack [] = refl
length-set_pack key pack (e ∷ es) = ground (arith, length-set_pack key pack es)

-- The count agrees with the entries.
pub record IsCounted (t : ResponseTracker) : Type 0 where
  pub counted : t.received ≡ answered t.responses
  pub peers_fit : length t.responses < 2 ^ 32

is_answered_room : (pack : List ℕ) → (length pack == 0) ≡ true → is_answered pack ≡ 0
is_answered_room [] empty = refl
is_answered_room (b ∷ bs) empty = ground arith

pub answered-set_pack_room :
    (key b : ℕ) (bs : List ℕ) (es : List ResponseEntry)
    → has_room (find key es) ≡ true
    → answered (set_pack key (b ∷ bs) es) ≡ answered es + 1
unfolding answered set_pack find
answered-set_pack_room key b bs [] room = ground arith
answered-set_pack_room key b bs (x ∷ es) room =
    ground (arith, is_answered_room x.pack, answered-set_pack_room key b bs es)

pub received-count : (t : ResponseTracker) → (count t).1.received ≡ (t.received + 1) % 2 ^ 32
unfolding count
received-count t = ground arith

pub responses-count : (t : ResponseTracker) → (count t).1.responses ≡ t.responses
unfolding count
responses-count t = ground arith

pub expected-count : (t : ResponseTracker) → (count t).1.expected ≡ t.expected
unfolding count
expected-count t = ground arith

pub count-IsCounted :
    (t : ResponseTracker) (key b : ℕ) (bs : List ℕ)
    → IsCounted t
    → has_room (find key t.responses) ≡ true
    → IsCounted (count (record t { responses = set_pack key (b ∷ bs) t.responses })).1
count-IsCounted t key b bs counted room =
    let stored = record t { responses = set_pack key (b ∷ bs) t.responses } in
    let r = answered-set_pack_room key b bs t.responses room in
    let l = length-set_pack key (b ∷ bs) t.responses in
    let le = answered-le stored.responses in
    let c = received-count stored in
    record {
      counted =
          c
          ∙ mod-eq_of_lt (omega arith)
          ∙ ap (λ n. n + 1) counted.counted
          ∙ sym r
          ∙ ap answered (sym (responses-count stored));
      peers_fit = rw (responses-count stored, l) counted.peers_fit;
    }

-- A tracker that expects as many responses as it has entries.
pub fulfilled-count :
    (t : ResponseTracker)
    → t.received + 1 < 2 ^ 32
    → ((count t).0 ≡ UpdateStatus.fulfilled) ↔ (t.expected ≤ t.received + 1)
unfolding count
fulfilled-count t small = ground (arith, mod-eq_of_lt small)

pub refuse-unfulfilled : (t : ResponseTracker) (now : ℕ) → (refuse t now).0 ≢ UpdateStatus.fulfilled
unfolding refuse
refuse-unfulfilled t now = ground arith
