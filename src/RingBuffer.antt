-- ===== src/RingBuffer.antt =====
-- src/block_range_scanner/ring_buffer.rs: the store of past block hashes. The `VecDeque` is the
-- list of its elements, oldest first.
pub mod Retention
pub mod Recall
use event_scanner.Prelude.{
  ℕ, zero, suc, Option, none, some, List, [], ◌∷◌, ◌++◌, length, ◌==◌, if◌then◌else◌,
}

pub data RingBufferCapacity : Type 0 where
  limited : ℕ → RingBufferCapacity
  infinite : RingBufferCapacity

pub record RingBuffer (T : Type 0) : Type 0 where
  pub inner : List T
  pub capacity : RingBufferCapacity

module _ {T : Type 0} where
  -- `VecDeque::pop_front`
  abbrev pub pop_front : List T → List T
  pop_front [] = []
  pop_front (x ∷ xs) = xs

  -- `VecDeque::back`
  abbrev pub last? : List T → Option T
  last? [] = none
  last? (x ∷ []) = some x
  last? (x ∷ y ∷ xs) = last? (y ∷ xs)

  -- what `VecDeque::pop_back` leaves
  abbrev pub init : List T → List T
  init [] = []
  init (x ∷ []) = []
  init (x ∷ y ∷ xs) = x ∷ init (y ∷ xs)

  -- `with_capacity` only reserves memory
  unfoldable pub new : RingBufferCapacity → RingBuffer T
  new capacity = record { inner = []; capacity = capacity }

  abbrev pub push_within : RingBufferCapacity → T → List T → List T
  push_within infinite item inner = inner ++ (item ∷ [])
  push_within (limited zero) item inner = inner
  push_within (limited (suc n)) item inner =
      (if length inner == suc n then pop_front inner else inner) ++ (item ∷ [])

  unfoldable pub push : T → RingBuffer T → RingBuffer T
  push item buf = record buf { inner = push_within buf.capacity item buf.inner }

  -- The newest element, and the buffer without it.
  unfoldable pub pop_back : RingBuffer T → Option T × RingBuffer T
  pop_back buf = (last? buf.inner, record buf { inner = init buf.inner })

  unfoldable pub back : RingBuffer T → Option T
  back buf = last? buf.inner

  unfoldable pub clear : RingBuffer T → RingBuffer T
  clear buf = record buf { inner = [] }
