-- ===== src/ReorgHandler/Ancestors.antt =====
-- The common ancestors of the default handler are blocks of the provider.
use event_scanner.Prelude.{
  ℕ, zero, suc, ◌<◌, ◌≡◌, refl, some, ◌==◌, length, inl, inr, Bool-cases, Option-cases, arith,
}
use event_scanner.Types.{Result, ok, err, ProviderError}
use event_scanner.Env.{Env, Block, BlockNumberOrTag}
use event_scanner.RingBuffer
use event_scanner.ReorgHandler.{
  DefaultReorgHandler, CheckResult, fall_back, return_common_ancestor, forget_newest,
  find_common_ancestor, check, reorg_detected,
}

-- The numbers of the provider's blocks are below `limit`.
abbrev pub IsBounded : {W : Type 0} → Env W → ℕ → Type 0
IsBounded {W} env limit =
    (t : BlockNumberOrTag) (w : W) (block : Block)
    → (env.get_block_by_number t w).0 ≡ ok block
    → block.number < limit

-- So is that of a common ancestor that is found.
abbrev Found : {H : Type 0} → ℕ → CheckResult × H → Type 0
Found limit (checked, h) = (b : Block) → checked ≡ ok (some b) → b.number < limit

module _ {W : Type 0} (env : Env W) (limit : ℕ) (bounded : IsBounded env limit) where
  fall_back-Found : (h : DefaultReorgHandler) (w : W) → Found limit (fall_back env h w).0
  unfolding fall_back
  fall_back-Found h w b e =
      let found = bounded BlockNumberOrTag.finalized w b in ground (arith, found)

  return-Found :
      (block : Block) (h : DefaultReorgHandler) (w : W)
      → block.number < limit
      → Found limit (return_common_ancestor env block h w).0
  unfolding return_common_ancestor
  return-Found block h w small b e =
      let found = bounded BlockNumberOrTag.finalized w b in ground (arith, found)

  -- One turn of the loop, once the provider has answered.
  turn-Found :
      (n c hash : ℕ) (h : DefaultReorgHandler) (w : W) (answer : Result ProviderError Block)
      → RingBuffer.back h.buffer ≡ some (c, hash)
      → (env.get_block_by_number (BlockNumberOrTag.number c) w).0 ≡ answer
      → ((w' : W) → Found limit (find_common_ancestor env n (forget_newest h) w').0)
      → Found limit (find_common_ancestor env (suc n) h w).0
  unfolding find_common_ancestor
  turn-Found n c hash h w (ok block) newest e later = elim (Bool-cases (block.hash == hash)) [
    | inl same ↦
        rw (find_common_ancestor, newest, e, same)
          (return-Found block h _ (bounded (BlockNumberOrTag.number c) w block e))
    | inr other ↦ rw (find_common_ancestor, newest, e, other) (later _)
  ]
  turn-Found n c hash h w (err ProviderError.block_not_found) newest e later =
      rw (find_common_ancestor, newest, e) (later _)
  turn-Found n c hash h w (err ProviderError.timeout) newest e later =
      rw (find_common_ancestor, newest, e) (λ b bad. cc bad)
  turn-Found n c hash h w (err ProviderError.closed) newest e later =
      rw (find_common_ancestor, newest, e) (λ b bad. cc bad)
  turn-Found n c hash h w (err (ProviderError.rpc_error x)) newest e later =
      rw (find_common_ancestor, newest, e) (λ b bad. cc bad)
  turn-Found n c hash h w (err (ProviderError.lagged x)) newest e later =
      rw (find_common_ancestor, newest, e) (λ b bad. cc bad)

  find-Found :
      (n : ℕ) (h : DefaultReorgHandler) (w : W) → Found limit (find_common_ancestor env n h w).0
  unfolding find_common_ancestor
  find-Found zero h w = fall_back-Found h w
  find-Found (suc n) h w = elim (Option-cases (RingBuffer.back h.buffer)) [
    | inl empty ↦ rw (empty, find_common_ancestor) (fall_back-Found h w)
    | inr (entry, newest) ↦
        turn-Found n entry.0 entry.1 h w _ newest refl (find-Found n (forget_newest h))
  ]

  pub check-Found :
      (h : DefaultReorgHandler) (block : Block) (w : W) → Found limit (check env h block w).0
  unfolding check
  check-Found h block w b e =
      let found = find-Found (length h.buffer.inner) h (reorg_detected env block w).1 b in
      ground (arith, found)
