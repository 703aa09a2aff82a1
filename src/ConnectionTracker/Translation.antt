-- ===== src/ConnectionTracker/Translation.antt =====
-- Translate of ConnectionTracker.hpp: from a connection to the identifier of its peer, and back.
use brypt_node.Common.{
  ℕ, ◌≡◌, ap, ◌∙◌, inl, inr, List, [], ◌∷◌, some, or_same, ◌==◌, ==_iff, Bool-cases, arith,
}
use brypt_node.Message.Identifier.{Container}
use brypt_node.ConnectionTracker.Entries.{
  Details, Entry, get_brypt_identifier, peer_identifier_of, identifier_or_invalid,
}
use brypt_node.ConnectionTracker.{Key, find, translate_connection, translate_identifier}

module _ {I : Type 0} (key : Key I) where
  -- No other connection has a peer with this identifier.
  abbrev pub IsOnlyPeer : I → ℕ → List (Entry I) → Type 0
  IsOnlyPeer i identifier [] = Unit
  IsOnlyPeer i identifier (entry ∷ entries) =
      (peer_identifier_of entry.details ≡ identifier → entry.connection ≡ i)
      × IsOnlyPeer i identifier entries

  peer_of_found :
      (entry : Entry I) (details : Details) (identifier : Container)
      → some entry.details ≡ some (some details)
      → get_brypt_identifier details ≡ some identifier
      → peer_identifier_of entry.details ≡ identifier.internal_representation
  peer_of_found entry details identifier e known =
      ap peer_identifier_of (ap (or_same entry.details) e) ∙ ap identifier_or_invalid known

  translate_known :
      (entries : List (Entry I)) (i : I) (details : Details) (identifier : Container)
      → find key i entries ≡ some (some details)
      → get_brypt_identifier details ≡ some identifier
      → IsOnlyPeer i identifier.internal_representation entries
      → translate_identifier key identifier entries ≡ i
  unfolding find translate_identifier
  translate_known [] i details identifier e known only = absurd (ground (arith, e))
  translate_known (entry ∷ entries) i details identifier e known only =
      elim (Bool-cases (peer_identifier_of entry.details == identifier.internal_representation)) [
        | inl peer ↦ rw peer (only.0 ((==_iff _ _).0 peer))
        | inr other ↦ elim (Bool-cases (key.same entry.connection i)) [
          | inl here ↦
              let found : some entry.details ≡ some (some details) = rw here at e in
              absurd (ground (arith, other, peer_of_found entry details identifier found known))
          | inr there ↦
              let rest : find key i entries ≡ some (some details) = rw there at e in
              rw other (translate_known entries i details identifier rest known only.1)
        ]
      ]

  -- A connection whose peer has an identifier that no other connection's peer has is translated to
  -- that identifier, and the identifier back to the connection.
  pub translate_both_ways :
      (entries : List (Entry I)) (i : I) (details : Details) (identifier : Container)
      → find key i entries ≡ some (some details)
      → get_brypt_identifier details ≡ some identifier
      → IsOnlyPeer i identifier.internal_representation entries
      → (translate_connection key i entries ≡ some identifier)
        × (translate_identifier key identifier entries ≡ i)
  unfolding translate_connection
  translate_both_ways entries i details identifier e known only =
      (rw e known, translate_known entries i details identifier e known only)
