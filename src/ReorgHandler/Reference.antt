-- ===== src/ReorgHandler/Reference.antt =====
-- What a check finds while the chain stands still.
use mathlib.Core.List.{reverse-cons, reverse-reverse}
use event_scanner.Prelude.{
  ℕ, ◌≡◌, ap, ◌∙◌, Bool, false, Option, none, some, List, [], ◌∷◌, length, length-reverse, reverse,
  ◌==◌, leb, if◌then◌else◌, arith, subst,
}
use event_scanner.Types.{Result, ok, err, ProviderError}
use event_scanner.Env.{Env, Block, BlockNumberOrTag}
use event_scanner.RingBuffer
use event_scanner.RingBuffer.{RingBuffer, RingBufferCapacity, init, last?}
use event_scanner.RingBuffer.Retention.{last?-append, init-append}
use event_scanner.ReorgHandler.{
  DefaultReorgHandler, remember, forget_newest, forget_all, reorg_detected, fall_back,
  find_common_ancestor, check,
}

abbrev pub answer_of : Option Block → Result ProviderError Block
answer_of (some block) = ok block
answer_of none = err ProviderError.block_not_found

-- While a check runs, the provider answers from one chain, whose finalized block it knows.
pub record Stands {W : Type 0} (env : Env W) (chain : ℕ → Option Block) (finalized : Block)
    : Type 0 where
  pub blocks :
      (n : ℕ) (w : W)
      → (env.get_block_by_number (BlockNumberOrTag.number n) w).0 ≡ answer_of (chain n)
  pub final : (w : W) → (env.get_block_by_number BlockNumberOrTag.finalized w).0 ≡ ok finalized

-- Whether the chain has this hash at this number.
abbrev pub has_hash : ℕ → Option Block → Bool
has_hash hash none = false
has_hash hash (some block) = block.hash == hash

module _ (chain : ℕ → Option Block) (finalized : Block) where
  -- The stored entries from the newest one that is still on the chain, newest first.
  pub canonical_part : List (ℕ × ℕ) → List (ℕ × ℕ)
  canonical_part [] = []
  canonical_part ((number, hash) ∷ es) =
      if has_hash hash (chain number) then (number, hash) ∷ es else canonical_part es

  -- The newest entry's block, unless there is none or it predates the finalized block; then the
  -- finalized block, with nothing left in store.
  pub ancestor : List (ℕ × ℕ) → Block × List (ℕ × ℕ)
  ancestor [] = (finalized, [])
  ancestor ((number, hash) ∷ es) = elim (chain number) [
    | none ↦ (finalized, [])
    | some block ↦
        if leb finalized.number block.number then (block, (number, hash) ∷ es) else (finalized, [])
  ]

-- A store with these entries, newest first.
abbrev pub with_entries : DefaultReorgHandler → List (ℕ × ℕ) → DefaultReorgHandler
with_entries h es = record h { buffer = record (h.buffer) { inner = reverse es } }

back-with_entries :
    (h : DefaultReorgHandler) (e : ℕ × ℕ) (es : List (ℕ × ℕ))
    → RingBuffer.back (with_entries h (e ∷ es)).buffer ≡ some e
unfolding RingBuffer.back
back-with_entries h e es = rw (reverse-cons e es) (last?-append (reverse es) e)

forget_newest-with_entries :
    (h : DefaultReorgHandler) (e : ℕ × ℕ) (es : List (ℕ × ℕ))
    → forget_newest (with_entries h (e ∷ es)) ≡ with_entries h es
unfolding forget_newest
forget_newest-with_entries h e es =
    ap (λ l. record h { buffer = record (h.buffer) { inner = l } })
      (ap init (reverse-cons e es) ∙ init-append (reverse es) e)

module _ {W : Type 0} (env : Env W) {chain : ℕ → Option Block} {finalized : Block}
    (st : Stands env chain finalized) where
  fall_back_lem :
      (h : DefaultReorgHandler) (w : W) → (fall_back env h w).0 ≡ (ok (some finalized), h)
  unfolding fall_back
  fall_back_lem h w = ground (arith, st.final w)

  -- the loop, on a store given newest first
  find-ancestor :
      (es : List (ℕ × ℕ)) (h : DefaultReorgHandler) (w : W)
      → let (block, left) = ancestor chain finalized (canonical_part chain finalized es) in
        (find_common_ancestor env (length es) (with_entries h es) w).0
        ≡ (ok (some block), with_entries h left)
  unfolding find_common_ancestor ancestor canonical_part forget_all
  find-ancestor [] h w = fall_back_lem (with_entries h []) w
  find-ancestor ((number, hash) ∷ es) h w =
      let w' = (env.get_block_by_number (BlockNumberOrTag.number number) w).1 in
      ground (
        arith,
        back-with_entries h (number, hash) es,
        forget_newest-with_entries h (number, hash) es,
        st.blocks number w,
        st.final w',
        find-ancestor es h w',
      )

  find_in_length :
      (es : List (ℕ × ℕ)) (h : DefaultReorgHandler) (w : W)
      → let (block, left) = ancestor chain finalized (canonical_part chain finalized es) in
        (find_common_ancestor env (length (reverse es)) (with_entries h es) w).0
        ≡ (ok (some block), with_entries h left)
  find_in_length es h w = rw (length-reverse es) (find-ancestor es h w)

  check-with_entries :
      (h : DefaultReorgHandler) (es : List (ℕ × ℕ)) (block : Block) (w : W)
      → let (common, left) = ancestor chain finalized (canonical_part chain finalized es) in
        (check env (with_entries h es) block w).0 ≡ (
          if has_hash block.hash (chain block.number)
          then (ok none, remember block (with_entries h es))
          else (ok (some common), with_entries h left))
  unfolding check reorg_detected
  check-with_entries h es block w =
      let w' = (env.get_block_by_number (BlockNumberOrTag.number block.number) w).1 in
      ground (arith, st.blocks block.number w, find_in_length es h w')

  -- While the chain stands, a check finds no reorg exactly if the chain has the block's hash at its
  -- number, and then stores the hash. Otherwise it returns the newest stored block that is still on
  -- the chain, and forgets those above it; if there is none, or that block predates the finalized
  -- one, it returns the finalized block and forgets them all.
  pub check_reference :
      (h : DefaultReorgHandler) (block : Block) (w : W)
      → let (common, left) =
          ancestor chain finalized (canonical_part chain finalized (reverse h.buffer.inner)) in
        (check env h block w).0 ≡ (
          if has_hash block.hash (chain block.number)
          then (ok none, remember block h)
          else (ok (some common), with_entries h left))
  check_reference h block w =
      let same : with_entries h (reverse h.buffer.inner) ≡ h =
        ap (λ l. record h { buffer = record (h.buffer) { inner = l } })
          (reverse-reverse h.buffer.inner) in
      subst
        (λ (k : DefaultReorgHandler). (check env k block w).0 ≡ (
          if has_hash block.hash (chain block.number) then (ok none, remember block k) else (
            ok (
                some
                  (ancestor chain finalized
                    (canonical_part chain finalized (reverse h.buffer.inner))).0),
            with_entries h
                (ancestor chain finalized
                  (canonical_part chain finalized (reverse h.buffer.inner))).1,
          )))
        same (check-with_entries h (reverse h.buffer.inner) block w)
