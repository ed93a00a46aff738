-- ===== src/Relay/Resend/Tests.antt =====
-- Answers to a relay that misses events, and the theorems at concrete requests.
use yummi_lcu.Common.{
  suc, ◌-◌, ◌≤◌, ◌≡◌, refl, true, false, [], ◌∷◌, none, some, length, min, u64_max, codes, ok,
  retain, str_eq,
}
use yummi_lcu.Relay.ReplayBuffer.{
  Event, Buffer, done, replay_live_delta_range, live_range, in_range, send_each,
}
use yummi_lcu.Relay.Protocol.{live_delta_resend, parse, refusal}
use yummi_lcu.Relay.Resend.{
  on_live_delta_resend, after_resend, IsAnswer, on_live_delta_resend_cases,
  on_live_delta_resend_bounded,
}

abbrev seventh : Event
seventh = record { event_id = "a"; text = "{}"; live_stream_id = some "game"; live_seq = some 7 }

abbrev held : Buffer
held = record {
  pending = seventh ∷ [];
  disk = record { file = some (seventh ∷ []); temporary = none };
  needs_live_resync = false;
  persistence_dirty = false;
}

on_live_delta_resend_cases_example :
    IsAnswer held "game"
      (min (suc (7 - 7)) u64_max)
      (on_live_delta_resend (λ i. false) done "game" 7 7 held)
on_live_delta_resend_cases_example = on_live_delta_resend_cases (λ i. false) done "game" 7 7 held

-- The only send fails.
broken_off :
    on_live_delta_resend (λ i. false) done "game" 7 7 held
    ≡ record { sent = []; buffer = held; asks_resync = false; ends_connection = true }
unfolding on_live_delta_resend after_resend replay_live_delta_range live_range in_range send_each
    retain str_eq
broken_off = refl

accepted :
    parse (λ s. true) (λ s. some (live_delta_resend (codes "game") 7 9)) (codes "{}")
    ≡ ok (live_delta_resend (codes "game") 7 9)
unfolding parse refusal
accepted = refl

on_live_delta_resend_bounded_example :
    length (on_live_delta_resend (λ i. true) done "game" 7 9 held).sent ≤ 1025
on_live_delta_resend_bounded_example =
    on_live_delta_resend_bounded (λ s. true) (λ s. some (live_delta_resend (codes "game") 7 9))
      (codes "{}") (codes "game") 7 9 accepted (λ i. true) done "game" held
