-- ===== src/Filtering.antt =====
-- src/event_scanner/filter.rs: which logs a listener asks for.
pub mod Matching
use Prim.Native.String.{String, ◌++◌ as str_append}
use event_scanner.Prelude.{
  ℕ, ◌≡◌, Bool, true, false, not, ◌&&◌, ◌||◌, Option, none, some, List, [], ◌∷◌, ◌++◌, map, ◌==◌,
  if◌then◌else◌,
}

abbrev pub contains : List ℕ → ℕ → Bool
contains [] h = false
contains (x ∷ xs) h = x == h || contains xs h

abbrev pub is_nil {ℓ} : {A : Type ℓ} → List A → Bool
is_nil [] = true
is_nil (x ∷ xs) = false

-- `str::is_empty`
abbrev pub is_empty_text : String → Bool
is_empty_text String.[] = true
is_empty_text (String.◌∷◌ c s) = false

-- alloy's `ValueOrArray`
pub data ValueOrArray : Type 0 where
  value : ℕ → ValueOrArray
  array : List ℕ → ValueOrArray

-- alloy's `Topic`: a set of hashes, of which the crate uses these operations, and what it relies on.
pub record TopicSets : Type 1 where
  pub Topic : Type 0
  pub default : Topic
  pub from_hashes : List ℕ → Topic
  pub extend : Topic → Topic → Topic
  pub is_empty : Topic → Bool
  pub to_value_or_array : Topic → Option ValueOrArray
  pub has : Topic → ℕ → Bool
  pub is_empty-default : is_empty default ≡ true
  pub is_empty-from_hashes : (hs : List ℕ) → is_empty (from_hashes hs) ≡ is_nil hs
  pub is_empty-extend : (s t : Topic) → is_empty (extend s t) ≡ (is_empty s && is_empty t)
  pub has-default : (h : ℕ) → has default h ≡ false
  pub has-from_hashes : (hs : List ℕ) (h : ℕ) → has (from_hashes hs) h ≡ contains hs h
  pub has-extend : (s t : Topic) (h : ℕ) → has (extend s t) h ≡ (has s h || has t h)

-- `[A]::join`
abbrev pub join : String → List String → String
join sep [] = ""
join sep (x ∷ []) = x
join sep (x ∷ y ∷ xs) = str_append x (str_append sep (join sep (y ∷ xs)))

module _ (topics : TopicSets) where
  open topics use {Topic, default, from_hashes, extend, is_empty, to_value_or_array, has}

  -- An address is a number.
  pub record EventFilter : Type 0 where
    pub contract_addresses : List ℕ
    pub events : List String
    pub event_signatures : Topic

  -- alloy's `Filter`, the two fields that the crate sets; `none` is unrestricted.
  pub record Filter : Type 0 where
    pub event_signature : Option Topic
    pub address : Option (List ℕ)

module _ (topics : TopicSets) where
  open topics use {Topic, default, from_hashes, extend, is_empty, to_value_or_array, has}

  unfoldable pub new : EventFilter topics
  new = record { contract_addresses = []; events = []; event_signatures = default }

  unfoldable pub contract_address : ℕ → EventFilter topics → EventFilter topics
  contract_address address f = record f {
    contract_addresses = f.contract_addresses ++ (address ∷ []);
  }

  unfoldable pub contract_addresses : List ℕ → EventFilter topics → EventFilter topics
  contract_addresses addresses f = record f {
    contract_addresses = f.contract_addresses ++ addresses;
  }

  unfoldable pub event : String → EventFilter topics → EventFilter topics
  event e f = if is_empty_text e then f else record f { events = f.events ++ (e ∷ []) }

  unfoldable pub events : List String → EventFilter topics → EventFilter topics
  events es f = record f { events = f.events ++ es }

  unfoldable pub event_signature : Topic → EventFilter topics → EventFilter topics
  event_signature t f = record f { event_signatures = extend f.event_signatures t }

  unfoldable pub event_signatures : List Topic → EventFilter topics → EventFilter topics
  event_signatures [] f = f
  event_signatures (t ∷ ts) f =
      event_signatures ts (record f { event_signatures = extend f.event_signatures t })

  module _ (keccak256 : String → ℕ) where
    unfoldable pub all_events : EventFilter topics → Topic
    all_events f = extend f.event_signatures (from_hashes (map keccak256 f.events))

    -- `From<EventFilter> for Filter`; the one for `&EventFilter` has the same body.
    unfoldable pub to_filter : EventFilter topics → Filter topics
    unfolding all_events
    to_filter filter = record {
      event_signature = if is_empty (all_events filter) then none else some (all_events filter);
      address = if is_nil filter.contract_addresses then none else some filter.contract_addresses;
    }

  module _ (show_address show_hash : ℕ → String) where
    abbrev pub contracts_part : List ℕ → List String
    contracts_part [] = []
    contracts_part (a ∷ rest) =
        str_append "contracts: [" (str_append (join ", " (map show_address (a ∷ rest))) "]") ∷ []

    abbrev pub events_part : List String → List String
    events_part [] = []
    events_part (e ∷ es) = str_append "events: [" (str_append (join ", " (e ∷ es)) "]") ∷ []

    abbrev pub show_hashes : ValueOrArray → String
    show_hashes (value h) = show_hash h
    show_hashes (array hs) = join ", " (map show_hash hs)

    abbrev pub signatures_part : Option ValueOrArray → List String
    signatures_part none = []
    signatures_part (some v) =
        str_append "event_signatures: [" (str_append (show_hashes v) "]") ∷ []

    -- `Display::fmt`
    unfoldable pub fmt : EventFilter topics → String
    fmt f =
        let content =
          contracts_part f.contract_addresses
          ++ (events_part f.events ++ signatures_part (to_value_or_array f.event_signatures)) in
        str_append "EventFilter(" (str_append (join ", " content) ")")
