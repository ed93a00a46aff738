-- ===== src/Relay/Resend.antt =====
-- relay/supervisor.rs: how the agent answers a relay that misses a range of a live stream, or asks for
-- a whole stream anew. The answer is what it sends, the buffer afterwards, whether the polling
-- worker is told to send a full state again, and whether the connection ends with an error.
mod Tests
use yummi_lcu.Common.{
  ℕ, suc, ◌+◌, ◌-◌, ◌≤◌, ◌≡◌, refl, ap, sym, ◌⊎◌, inl, inr, Bool, true, false, not, ◌&&◌, List, [],
  ◌∷◌, Option, none, some, String, arith, length, any, ltb, leb, ◌==◌, if◌then◌else◌, retain,
  is_str, saturating_add, u64_max, min, Bool-cases, Bytes, ok, err, Result, is_some_and, ◌<◌, ◌≢◌,
  ◌++◌, length-append,
}
use yummi_lcu.Relay.ReplayBuffer.{
  Event, Buffer, WriteOutcome, in_range, live_range, replay_live_delta_range, drop_live_stream,
  report, persist_live_pending, SendError, send_each,
}
use yummi_lcu.Relay.ReplayBuffer.Range.{send_each-cases}
use yummi_lcu.Relay.Protocol.{IncomingMessage, live_delta_resend, parse}
use yummi_lcu.Relay.Protocol.Safe.{IsSafe}
use yummi_lcu.Relay.Protocol.Accepts.{parse-IsSafe}

pub record Answer : Type 0 where
  pub sent : List Event
  pub buffer : Buffer
  pub asks_resync : Bool
  pub ends_connection : Bool

-- The rest of the arm `LiveDeltaResend`, after the resend: an error is passed on by `?`.
unfoldable pub after_resend :
    WriteOutcome → String → (expected : ℕ) → Buffer → List Event × Result SendError ℕ → Answer
after_resend o stream expected b (sent, err e) = record {
  sent = sent;
  buffer = b;
  asks_resync = false;
  ends_connection = true;
}
after_resend o stream expected b (sent, ok replayed) =
    if ltb replayed expected
    then record {
      sent = sent;
      buffer = (drop_live_stream o stream b).0;
      asks_resync = true;
      ends_connection = false;
    }
    else record { sent = sent; buffer = b; asks_resync = false; ends_connection = false }

-- The arm `LiveDeltaResend`.
unfoldable pub on_live_delta_resend : (ℕ → Bool) → WriteOutcome → String → ℕ → ℕ → Buffer → Answer
on_live_delta_resend succeeds o stream from_seq to_seq b =
    after_resend o stream (saturating_add (to_seq - from_seq) 1) b
      (replay_live_delta_range succeeds stream from_seq to_seq b)

-- The arm `LiveDeltaResync`.
unfoldable pub on_live_delta_resync : WriteOutcome → String → Buffer → Answer
on_live_delta_resync o stream b = record {
  sent = [];
  buffer = (drop_live_stream o stream b).0;
  asks_resync = true;
  ends_connection = false;
}

-- No event of the stream is pending.
abbrev pub is_gone : String → Buffer → Bool
is_gone stream b = not (any (λ e. is_str e.live_stream_id stream) b.pending)

none_left : (p : Event → Bool) (es : List Event) → any p (retain (λ e. not (p e)) es) ≡ false
unfolding retain
none_left p [] = refl
none_left p (e ∷ es) = ground (arith, none_left p es)

report-buffer : {A : Type 0} (a : A) (r : Buffer × Bool) → (report a r).0 ≡ r.0
report-buffer a (b, true) = refl
report-buffer a (b, false) = refl

drop_live_stream-is_gone :
    (o : WriteOutcome) (stream : String) (b : Buffer)
    → is_gone stream (drop_live_stream o stream b).0 ≡ true
unfolding drop_live_stream persist_live_pending
drop_live_stream-is_gone o stream b =
    ground (arith, none_left (λ e. is_str e.live_stream_id stream) b.pending)

-- How an answer looks whose range has `expected` numbers: as many events are sent, with the buffer
-- untouched; or nothing is sent, the stream is gone from the queue, and a full state is asked for; or
-- the connection ends after fewer events, with the buffer untouched and no full state asked for.
pub data IsAnswer (b : Buffer) (stream : String) (expected : ℕ) (a : Answer) : Type 0 where
  whole :
      a.ends_connection ≡ false
      → a.asks_resync ≡ false
      → a.buffer ≡ b
      → length a.sent ≡ expected
      → IsAnswer b stream expected a
  dropped :
      a.ends_connection ≡ false
      → a.asks_resync ≡ true
      → a.sent ≡ []
      → is_gone stream a.buffer ≡ true
      → IsAnswer b stream expected a
  broken :
      a.ends_connection ≡ true
      → a.asks_resync ≡ false
      → a.buffer ≡ b
      → length a.sent < expected
      → IsAnswer b stream expected a

length_rest : (sent rest es : List Event) → rest ≢ [] → sent ++ rest ≡ es → length sent < length es
length_rest sent [] es h e = absurd (h refl)
length_rest sent (x ∷ rest) es h e = omega (arith, length-append sent (x ∷ rest), ap length e)

-- A resend is answered in one of three ways, whichever sends succeed and however the write of the file
-- ends: with as many events as the range has numbers, the buffer untouched; with nothing, the whole
-- stream gone from the queue, and a full state asked for; or, after a failed send, by the end of the
-- connection, with fewer events sent, the buffer untouched and no full state asked for.
pub on_live_delta_resend_cases :
    (succeeds : ℕ → Bool) (o : WriteOutcome) (stream : String) (from_seq to_seq : ℕ) (b : Buffer)
    → IsAnswer b stream
        (min (suc (to_seq - from_seq)) u64_max)
        (on_live_delta_resend succeeds o stream from_seq to_seq b)
unfolding on_live_delta_resend replay_live_delta_range after_resend
on_live_delta_resend_cases succeeds o stream from_seq to_seq b =
    let events = live_range stream from_seq to_seq b in
    elim (Bool-cases (length events == saturating_add (to_seq - from_seq) 1)) [
      | inr partial ↦
          let short : ltb 0 (saturating_add (to_seq - from_seq) 1) ≡ true = ground arith in
          rw (partial, short) (dropped refl refl refl (drop_live_stream-is_gone o stream b))
      | inl full ↦ elim (send_each-cases succeeds events) [
        | inl all_sent ↦
            let enough : ltb (length events) (saturating_add (to_seq - from_seq) 1) ≡ false =
              ground arith in
            rw (full, all_sent, enough) (whole refl refl refl (ground arith))
        | inr (rest, some_left, split, stopped) ↦
            rw (full, stopped)
              (broken refl refl refl (
                ground
                  (arith, length_rest (send_each succeeds events).0 rest events some_left split)))
      ]
    ]

-- A relay message that `parse` accepts as a resend makes the agent send at most 1025 events.
pub on_live_delta_resend_bounded :
    (is_uuid : Bytes → Bool) (decode : Bytes → Option IncomingMessage) (s stream_id : Bytes)
    (from_seq to_seq : ℕ)
    → parse is_uuid decode s ≡ ok (live_delta_resend stream_id from_seq to_seq)
    → (succeeds : ℕ → Bool) (o : WriteOutcome) (stream : String) (b : Buffer)
    → length (on_live_delta_resend succeeds o stream from_seq to_seq b).sent ≤ 1025
unfolding IsSafe
on_live_delta_resend_bounded is_uuid decode s stream_id from_seq to_seq h succeeds o stream b =
    let accepted =
      (parse-IsSafe is_uuid decode s (live_delta_resend stream_id from_seq to_seq)).0 h in
    elim (on_live_delta_resend_cases succeeds o stream from_seq to_seq b) [
      | whole _ _ _ n ↦ omega (arith, n, accepted.1.1.1.1.1)
      | dropped _ _ n _ ↦ omega (arith, ap length n)
      | broken _ _ _ n ↦ omega (arith, n, accepted.1.1.1.1.1)
    ]
