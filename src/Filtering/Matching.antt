-- ===== src/Filtering/Matching.antt =====
-- Which logs a filter admits, and how its setters add up.
use Prim.Native.String.{String}
use event_scanner.Prelude.{
  ℕ, ◌≡◌, refl, Bool, true, false, ◌&&◌, ◌||◌, none, some, List, [], ◌∷◌, ◌++◌, map, append-nil,
  append_assoc, All, arith,
}
use event_scanner.Filtering.{
  EventFilter, Filter, TopicSets, contains, is_nil, is_empty_text, to_filter, contract_address,
  contract_addresses, event, events,
}

module _ (topics : TopicSets) where
  open topics use {Topic, default, from_hashes, extend, is_empty, has}

  -- Whether a node returns a log of this address and this first topic.
  abbrev pub admits : Filter topics → ℕ → ℕ → Bool
  admits f address topic =
      (elim f.event_signature [ none ↦ true | some t ↦ has t topic ])
      && (elim f.address [ none ↦ true | some named ↦ contains named address ])

  -- What a filter asks for: the events that were named or hashed, if any were, and the contracts
  -- that were named, if any were.
  abbrev pub wants : (String → ℕ) → EventFilter topics → ℕ → ℕ → Bool
  wants keccak256 f address topic =
      ((is_nil f.events && is_empty f.event_signatures)
        || (contains (map keccak256 f.events) topic || has f.event_signatures topic))
      && (is_nil f.contract_addresses || contains f.contract_addresses address)

  abbrev pub add_each :
      {A : Type 0}
      → (A → EventFilter topics → EventFilter topics)
      → List A
      → EventFilter topics
      → EventFilter topics
  add_each add [] f = f
  add_each add (x ∷ xs) f = add_each add xs (add x f)

  is_nil-map : (k : String → ℕ) (es : List String) → is_nil (map k es) ≡ is_nil es
  is_nil-map k [] = refl
  is_nil-map k (e ∷ es) = refl

  -- A filter admits a log exactly if the listener asked for it: its first topic is the hash of one
  -- of the events or one of the signature hashes, or none were given, and its address is one of the
  -- contracts, or none were given.
  pub to_filter-admits :
      (keccak256 : String → ℕ) (f : EventFilter topics) (address topic : ℕ)
      → admits (to_filter topics keccak256 f) address topic ≡ wants keccak256 f address topic
  unfolding to_filter
  to_filter-admits keccak256 f address topic =
      let hashes = map keccak256 f.events in
      let empty = topics.is_empty-extend f.event_signatures (from_hashes hashes) in
      let none_named = topics.is_empty-from_hashes hashes in
      let same = is_nil-map keccak256 f.events in
      let either = topics.has-extend f.event_signatures (from_hashes hashes) topic in
      let hashed = topics.has-from_hashes hashes topic in
      ground (arith, empty, none_named, same, either, hashed)

  contract_addresses-add_each :
      (addresses : List ℕ) (f : EventFilter topics)
      → contract_addresses topics addresses f ≡ add_each (contract_address topics) addresses f
  unfolding contract_addresses contract_address
  contract_addresses-add_each [] f = rw append-nil refl
  contract_addresses-add_each (a ∷ rest) f =
      let later = contract_addresses-add_each rest (contract_address topics a f) in
      rw append_assoc at later

  events-add_each :
      (es : List String) (f : EventFilter topics)
      → All (λ e. is_empty_text e ≡ false) es
      → events topics es f ≡ add_each (event topics) es f
  unfolding events event
  events-add_each [] f named = rw append-nil refl
  events-add_each (e ∷ es) f named =
      let later = events-add_each es (record f { events = f.events ++ (e ∷ []) }) named.1 in
      rw named.0 (rw append_assoc at later)

  -- A setter for several contracts or events adds what the setter for one adds in turn, if no event
  -- is the empty text.
  pub setters_for_many :
      (addresses : List ℕ) (es : List String) (f : EventFilter topics)
      → All (λ e. is_empty_text e ≡ false) es
      → (contract_addresses topics addresses f ≡ add_each (contract_address topics) addresses f)
        × (events topics es f ≡ add_each (event topics) es f)
  setters_for_many addresses es f named =
      (contract_addresses-add_each addresses f, events-add_each es f named)
