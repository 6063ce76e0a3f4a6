-- ===== src/Tests/Modes.antt =====
-- The filter of a listener, and the configuration of the modes.
use Prim.Native.String.{String}
use event_scanner.Prelude.{ℕ, ◌+◌, ◌≡◌, refl, ◌||◌, ◌&&◌, List, [], ◌∷◌, ◌++◌, none, some, arith}
use event_scanner.Types.{Result, ok, err, ProviderError, ScannerError}
use event_scanner.Env.{BlockNumberOrTag, BlockId, Call}
use event_scanner.Fallible.Rules.{Outcome}
use event_scanner.Filtering.{
  TopicSets, EventFilter, ValueOrArray, contains, is_nil, new, contract_address, event,
  event_signature, to_filter, fmt, contract_addresses, events,
}
use event_scanner.Filtering.Matching.{admits, wants, add_each, to_filter-admits, setters_for_many}
use event_scanner.EventScanner.{
  EventScannerBuilder, Historic, LatestEvents, SyncFromBlock, SyncFromLatestEvents,
}
use event_scanner.RingBuffer.{limited}
use event_scanner.Scanner
use event_scanner.Scanner.Setters
use event_scanner.Modes.Historic.{connect as connect_historic}
use event_scanner.Modes.Latest.{connect as connect_latest}
use event_scanner.Modes.FromBlock.{connect as connect_from_block}
use event_scanner.Modes.FromLatest.{connect as connect_from_latest}
use event_scanner.Modes.ConnectSync.{BlamesHash, IsFromBlock, IsFromLatest, connect_sync-Outcome}
use event_scanner.Modes.Blame.{Blames, BlamesBlocks}
use event_scanner.Modes.Connect.{
  IsHistoric, IsLatest, connect_historic-Outcome, connect_latest-Outcome,
}
use event_scanner.Sync.Catchup.{HasBoundedTip}
use event_scanner.Tests.World.{chain_world}

-- Sets as lists.
is_nil-append : (s t : List ℕ) → is_nil (s ++ t) ≡ (is_nil s && is_nil t)
is_nil-append [] t = refl
is_nil-append (x ∷ s) t = refl

contains-append : (s t : List ℕ) (h : ℕ) → contains (s ++ t) h ≡ (contains s h || contains t h)
contains-append [] t h = refl
contains-append (x ∷ s) t h = ground (arith, contains-append s t h)

abbrev list_sets : TopicSets
list_sets = record {
  Topic = List ℕ;
  default = [];
  from_hashes = λ hs. hs;
  extend = λ s t. s ++ t;
  is_empty = is_nil;
  to_value_or_array = elim [
    | [] ↦ none
    | h ∷ [] ↦ some (ValueOrArray.value h)
    | h ∷ g ∷ hs ↦ some (ValueOrArray.array (h ∷ g ∷ hs))
  ];
  has = contains;
  is_empty-default = refl;
  is_empty-from_hashes = λ hs. refl;
  is_empty-extend = is_nil-append;
  has-default = λ h. refl;
  has-from_hashes = λ hs h. refl;
  has-extend = contains-append;
}

abbrev hash_of : String → ℕ
hash_of String.[] = 0
hash_of (String.◌∷◌ c s) = 1 + hash_of s

abbrev show : ℕ → String
show n = "0x"

abbrev transfers : EventFilter list_sets
transfers = record {
  contract_addresses = 17 ∷ [];
  events = "Transfer()" ∷ [];
  event_signatures = 99 ∷ [];
}

transfers_built :
    event_signature list_sets (99 ∷ []) (
      event list_sets ""
        (event list_sets "Transfer()" (contract_address list_sets 17 (new list_sets))))
    ≡ transfers
unfolding new contract_address event event_signature
transfers_built = refl

transfers_shown :
    fmt list_sets show show transfers
    ≡ "EventFilter(contracts: [0x], events: [Transfer()], event_signatures: [0x])"
unfolding fmt
transfers_shown = refl

to_filter-admits_example :
    admits list_sets (to_filter list_sets hash_of transfers) 17 10
    ≡ wants list_sets hash_of transfers 17 10
to_filter-admits_example = to_filter-admits list_sets hash_of transfers 17 10

setters_for_many_example :
    (contract_addresses list_sets (3 ∷ 4 ∷ []) transfers
      ≡ add_each list_sets (contract_address list_sets) (3 ∷ 4 ∷ []) transfers)
    × (events list_sets ("A()" ∷ "B()" ∷ []) transfers
        ≡ add_each list_sets (event list_sets) ("A()" ∷ "B()" ∷ []) transfers)
setters_for_many_example =
    setters_for_many list_sets (3 ∷ 4 ∷ []) ("A()" ∷ "B()" ∷ []) transfers (refl, (refl, tt))

abbrev connected : Call ℕ (Result ProviderError (Unit {0}))
connected w = (ok tt, w)

-- Block 105 is not mined yet.
abbrev too_far : EventScannerBuilder Historic
too_far = record {
  config = record {
    from_block = BlockId.by_number BlockNumberOrTag.earliest;
    to_block = BlockId.by_number (BlockNumberOrTag.number 105);
    max_concurrent_fetches = 24;
  };
  block_range_scanner = record {
    max_block_range = 1000;
    past_blocks_storage_capacity = limited 10;
    buffer_capacity = 50000;
  };
}

too_far_fails :
    (connect_historic {F = ℕ} {S = ℕ} chain_world connected too_far 0).0
    ≡ err (ScannerError.block_exceeds_latest "to_block" 105 104)
unfolding connect_historic
too_far_fails = refl

chain_world-HasBoundedTip : HasBoundedTip chain_world
chain_world-HasBoundedTip w n e = ground arith

connect_historic-Outcome_example :
    Outcome
      (IsHistoric {F = ℕ} {S = ℕ} chain_world too_far)
      (Blames connected 1 24 too_far.block_range_scanner
        (BlamesBlocks chain_world too_far.config.from_block too_far.config.to_block))
      (connect_historic chain_world connected too_far 0).0
connect_historic-Outcome_example =
    connect_historic-Outcome ℕ ℕ chain_world connected too_far 0 chain_world-HasBoundedTip

abbrev last_ten : EventScannerBuilder LatestEvents
last_ten = record {
  config = record {
    count = 10;
    from_block = BlockId.by_number BlockNumberOrTag.latest;
    to_block = BlockId.by_hash 57;
    block_confirmations = 0;
    max_concurrent_fetches = 24;
  };
  block_range_scanner = too_far.block_range_scanner;
}

connect_latest-Outcome_example :
    Outcome
      (IsLatest {F = ℕ} {S = ℕ} chain_world last_ten)
      (Blames connected 10 24 last_ten.block_range_scanner
        (BlamesBlocks chain_world last_ten.config.from_block last_ten.config.to_block))
      (connect_latest chain_world connected last_ten 0).0
connect_latest-Outcome_example =
    connect_latest-Outcome ℕ ℕ chain_world connected last_ten 0 chain_world-HasBoundedTip

abbrev by_hash_scanner : EventScannerBuilder SyncFromBlock
by_hash_scanner = record {
  config = record {
    from_block = BlockId.by_hash 57;
    block_confirmations = 0;
    max_concurrent_fetches = 24;
  };
  block_range_scanner = too_far.block_range_scanner;
}

-- No events are asked for.
abbrev none_asked : EventScannerBuilder SyncFromLatestEvents
none_asked = record {
  config = record { count = 0; block_confirmations = 0; max_concurrent_fetches = 24 };
  block_range_scanner = too_far.block_range_scanner;
}

connect_sync-Outcome_example :
    Outcome
      (IsFromBlock {F = ℕ} {S = ℕ} chain_world by_hash_scanner)
      (Blames connected 1 24 too_far.block_range_scanner
        (BlamesHash chain_world (BlockId.by_hash 57)))
      (connect_from_block chain_world connected by_hash_scanner 0).0
    × Outcome
        (IsFromLatest {F = ℕ} {S = ℕ} chain_world none_asked)
        (Blames connected 0 24 too_far.block_range_scanner (λ e. ⊥))
        (connect_from_latest connected none_asked 0).0
connect_sync-Outcome_example =
    connect_sync-Outcome ℕ ℕ chain_world connected by_hash_scanner none_asked 0

-- A builder of block ranges, set up and connected.
builder_connects :
    (Scanner.connect connected
      (Setters.buffer_capacity 5 (
        Setters.past_blocks_storage_capacity
          (limited 2)
          (Setters.max_block_range 3 Scanner.new_builder)))
      0).0
    ≡ ok (record {
      max_block_range = 3;
      past_blocks_storage_capacity = limited 2;
      buffer_capacity = 5;
    })
unfolding Scanner.connect Scanner.new_builder Setters.buffer_capacity
    Setters.past_blocks_storage_capacity Setters.max_block_range
builder_connects = refl
