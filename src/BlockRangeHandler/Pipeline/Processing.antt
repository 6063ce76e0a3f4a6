-- ===== src/BlockRangeHandler/Pipeline/Processing.antt =====
-- Processing one message, and all of them one after the other.
use event_scanner.Prelude.{◌≡◌, inl, inr, refl, List, [], ◌∷◌, Bool-cases}
use event_scanner.Types.{
  Result, ok, err, ProviderError, data_of, notification, ChannelState, open_channel, closed_channel,
  from_data, from_notification, from_error, from_provider_error,
}
use event_scanner.Env.{Env, Call}
use event_scanner.Task.{Task, Attempt, finished, pure, call, ◌>>=◌, try_stream}
use event_scanner.RangeIterator.{BlockRange}
use event_scanner.RangeStream.{Item}
use event_scanner.BlockRangeHandler.{Log, LogItem, get_logs, stream_logs}
use event_scanner.BlockRangeHandler.Pipeline.{send_result, process_one}

module _ {V : Type 0} (env : Env V)
    (provider_get_logs : BlockRange → Call V (Result ProviderError (List Log))) where
  -- The provider is asked, and nothing is sent yet.
  got_range :
      (range : BlockRange) (v : V) (answer : Result ProviderError (List Log))
      → (provider_get_logs range v).0 ≡ answer
      → (result : LogItem) × (v' : V) × (get_logs env provider_get_logs (from_data range) v
          ≡ (finished result, [], v'))
  unfolding get_logs pure call ◌>>=◌
  got_range range v (ok logs) e = (from_data logs, (provider_get_logs range v).1, rw e refl)
  got_range range v (err x) e =
      (from_error (from_provider_error x), (provider_get_logs range v).1, rw e refl)

  got :
      (item : Item) (v : V)
      → (result : LogItem) × (v' : V) × (get_logs env provider_get_logs item v
          ≡ (finished result, [], v'))
  unfolding get_logs pure
  got (ok (data_of range)) v = got_range range v _ refl
  got (ok (notification n)) v = (from_notification n, v, refl)
  got (err e) v = (from_error e, v, refl)

  tried :
      (item : LogItem) (v : V)
      → (state : ChannelState) × (t : List (Attempt LogItem)) × (v' : V) × (send_result env
            provider_get_logs item v
          ≡ (finished state, t, v'))
  unfolding try_stream pure
  tried (ok (data_of [])) v = (open_channel, [], v, refl)
  tried (ok (data_of (log ∷ logs))) v = (_, _, _, refl)
  tried (ok (notification n)) v = (_, _, _, refl)
  tried (err e) v = (_, _, _, refl)

  -- Processing one message always finishes.
  pub process_one-finished :
      (item : Item) (v : V)
      → (state : ChannelState) × (t : List (Attempt LogItem)) × (v' : V) × (process_one env
            provider_get_logs item v
          ≡ (finished state, t, v'))
  unfolding process_one ◌>>=◌
  process_one-finished item v =
      let (result, v', e) = got item v in
      let (state, t, v'', e') = tried result v' in (state, t, v'', rw (e, e') refl)

  abbrev pub carry_on : List Item → ChannelState → Task LogItem V (Unit {0})
  carry_on items open_channel = stream_logs env provider_get_logs items
  carry_on items closed_channel = pure tt

  -- The loop is one message after the other.
  got-cons :
      (item : Item) (items : List Item) (v : V) (result : LogItem) (v' : V)
      → get_logs env provider_get_logs item v ≡ (finished result, [], v')
      → stream_logs env provider_get_logs (item ∷ items) v
        ≡ (process_one env provider_get_logs item >>= carry_on items) v
  unfolding process_one stream_logs try_stream pure ◌>>=◌
  got-cons item items v (ok (data_of [])) v' e = rw e refl
  got-cons item items v (ok (data_of (log ∷ logs))) v' e =
      rw e (elim (Bool-cases (env.send_is_ok v').0) [
        | inl sent ↦ rw sent refl
        | inr gone ↦ rw gone refl
      ])
  got-cons item items v (ok (notification n)) v' e = rw e (elim (Bool-cases (env.send_is_ok v').0) [
    | inl sent ↦ rw sent refl
    | inr gone ↦ rw gone refl
  ])
  got-cons item items v (err x) v' e = rw e (elim (Bool-cases (env.send_is_ok v').0) [
    | inl sent ↦ rw sent refl
    | inr gone ↦ rw gone refl
  ])

  pub stream_logs-cons :
      (item : Item) (items : List Item) (v : V)
      → stream_logs env provider_get_logs (item ∷ items) v
        ≡ (process_one env provider_get_logs item >>= carry_on items) v
  stream_logs-cons item items v =
      let (result, v', e) = got item v in got-cons item items v result v' e
