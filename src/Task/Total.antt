-- ===== src/Task/Total.antt =====
-- Total correctness: a task that finishes from every world, with what it returns and sends.
use event_scanner.Prelude.{
  true, ◌≡◌, ◌⊎◌, inl, inr, refl, sym, ◌∙◌, some, Bool-cases, [], ◌∷◌, ◌++◌,
}
use mathlib.Core.Bool.{false≢true}
use event_scanner.Env.{Env, Call}
use event_scanner.Types.{ScannerResult, ChannelState, open_channel, closed_channel}
use event_scanner.Task.{delivered, refused, finished, Task, pure, call, or_panic, ◌>>=◌, try_stream}
use event_scanner.Task.Hoare.{Trace}

pub record Total {I W A : Type 0} (m : Task I W A) (post : A → Trace I → Type 0) : Type 0 where
  pub run : (w : W) → (a : A) × (t : Trace I) × (w' : W) × (m w ≡ (finished a, t, w')) × post a t

module _ {I W A : Type 0} {post : A → Trace I → Type 0} where
  pub pure-Total : (a : A) → post a [] → Total {W = W} (pure a) post
  unfolding pure
  pure-Total a h = record { run = λ w. (a, [], w, refl, h) }

  pub call-Total : (c : Call W A) → ((w : W) → post (c w).0 []) → Total (call c) post
  unfolding call
  call-Total c h = record { run = λ w. ((c w).0, [], (c w).1, refl, h w) }

  pub weaken-Total :
      {m : Task I W A} {post' : A → Trace I → Type 0}
      → Total m post
      → ((a : A) (t : Trace I) → post a t → post' a t)
      → Total m post'
  weaken-Total h k = record { run = λ w. let (a, t, w', e, q) = h.run w in (a, t, w', e, k a t q) }

-- What the second task sends comes after what the first has sent.
pub bind-Total :
    {I W A B : Type 0} {m : Task I W A} {f : A → Task I W B} {post : B → Trace I → Type 0}
    (mid : A → Trace I → Type 0)
    → Total m mid
    → ((a : A) (t : Trace I) → mid a t → Total (f a) (λ b s. post b (t ++ s)))
    → Total (m >>= f) post
unfolding ◌>>=◌
bind-Total mid hm hf = record {
  run = λ w.
      let (a, t, w', e, q) = hm.run w in
      let (b, s, w'', e', q') = (hf a t q).run w' in (b, t ++ s, w'', rw (e, e') refl, q');
}

pub or_panic_some-Total :
    {I W A B : Type 0} {a : A} (f : A → Task I W B) {post : B → Trace I → Type 0}
    → Total (f a) post
    → Total (or_panic (some a) >>= f) post
unfolding ◌>>=◌ or_panic
or_panic_some-Total f h = record { run = h.run }

-- Whether the receiver may be gone: never if `Gone` is empty.
abbrev pub Sends : {W : Type 0} → Env W → Type 0 → Type 0
Sends {W} env Gone = (w : W) → ((env.send_is_ok w).0 ≡ true) ⊎ Gone

-- What holds after a send.
abbrev pub IfOpen : {I : Type 0} → Type 0 → (Trace I → Type 0) → ChannelState → Trace I → Type 0
IfOpen Gone P open_channel t = P t
IfOpen Gone P closed_channel t = Gone

pub try_stream-Total :
    {W T : Type 0} (env : Env W) (Gone : Type 0)
    → Sends env Gone
    → (item : ScannerResult T)
    → Total (try_stream env item) (IfOpen Gone (λ t. t ≡ delivered item ∷ []))
unfolding try_stream
try_stream-Total env Gone sends item = record {
  run = λ w. elim (Bool-cases (env.send_is_ok w).0) [
    | inl sent ↦ (open_channel, delivered item ∷ [], (env.send_is_ok w).1, rw sent refl, refl)
    | inr failed ↦ elim (sends w) [
      | inl sent ↦ absurd (false≢true (sym failed ∙ sent))
      | inr gone ↦ (closed_channel, refused item ∷ [], (env.send_is_ok w).1, rw failed refl, gone)
    ]
  ];
}

-- A send, whether or not the receiver is there.
pub attempt-Total :
    {W T : Type 0} {P : Trace (ScannerResult T) → Type 0} (env : Env W) (item : ScannerResult T)
    → P (delivered item ∷ [])
    → P (refused item ∷ [])
    → Total (try_stream env item) (λ state t. P t)
unfolding try_stream
attempt-Total env item sent not_sent = record {
  run = λ w. elim (Bool-cases (env.send_is_ok w).0) [
    | inl good ↦ (open_channel, delivered item ∷ [], (env.send_is_ok w).1, rw good refl, sent)
    | inr gone ↦ (closed_channel, refused item ∷ [], (env.send_is_ok w).1, rw gone refl, not_sent)
  ];
}
