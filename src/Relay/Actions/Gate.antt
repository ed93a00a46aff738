-- ===== src/Relay/Actions/Gate.antt =====
-- relay/supervisor.rs, `handle_incoming`: the gates that a command passes before it is carried
-- out, in their order: the session, the signature, the name of the action.
use yummi_lcu.Common.{
  ℕ, ◌≡◌, inl, inr, Bool, true, Option, none, some, arith, if◌then◌else◌, Bytes, Result, ok, err,
  Bool-cases,
}
use yummi_lcu.Json.{Value}
use yummi_lcu.CommandAuth.Canonical.{AuthError}
use yummi_lcu.CommandAuth.Verify.{Libraries, Moment, AuthState, verify_command}
use yummi_lcu.CommandAuth.Verify.Outcome.{IsAuthentic}
use yummi_lcu.CommandAuth.Verify.Sound.{verify_command-IsAuthentic}
use yummi_lcu.Relay.Actions.{Action, as_str, parse, allowed_on_new_device, command_is_authorized}
use yummi_lcu.Relay.Actions.Names.{parse-as_str_iff}

-- What a command comes to, up to the work of its action.
pub data CommandOutcome : Type 0 where
  not_authorized : CommandOutcome
  bad_signature : AuthError → CommandOutcome
  unknown_action : Value → CommandOutcome
  carried_out : Action → Value → CommandOutcome

module _ (lib : Libraries) where
  unfoldable pub after_signature :
      Option Action → AuthState lib × Result AuthError Value → AuthState lib × CommandOutcome
  after_signature action (s, err e) = (s, bad_signature e)
  after_signature none (s, ok payload) = (s, unknown_action payload)
  after_signature (some a) (s, ok payload) = (s, carried_out a payload)

  unfoldable pub handle_command :
      Moment
      → (action : Bytes) → (payload : Value) → (session_bound session_new_device : Bool) → Option ℕ
      → AuthState lib
      → AuthState lib × CommandOutcome
  handle_command m action payload session_bound session_new_device bound_id s =
      if command_is_authorized session_bound session_new_device (parse action)
      then after_signature (parse action) (verify_command lib m action payload bound_id s)
      else (s, not_authorized)

  after_signature-carried_out :
      (o : Option Action) (r : AuthState lib × Result AuthError Value) (s' : AuthState lib)
      (a : Action) (clean : Value)
      → after_signature o r ≡ (s', carried_out a clean)
      → (o ≡ some a) × (r ≡ (s', ok clean))
  unfolding after_signature
  after_signature-carried_out o (s, err e) s' a clean h = absurd (ground arith)
  after_signature-carried_out none (s, ok payload) s' a clean h = absurd (ground arith)
  after_signature-carried_out (some b) (s, ok payload) s' a clean h = ground arith

  -- A command that is carried out came in a bound session, is one of the few allowed there if the
  -- session is that of a new device, is called by its action's name, and is authentic: signed for this
  -- account over just this action and payload, timely, and with a nonce that was not among those that
  -- the cache still held as valid, and that the cache holds afterwards.
  pub handle_command-carried_out :
      (m : Moment) (action : Bytes) (payload : Value) (session_bound session_new_device : Bool)
      (bound_id : Option ℕ) (s s' : AuthState lib) (a : Action) (clean : Value)
      → handle_command m action payload session_bound session_new_device bound_id s
        ≡ (s', carried_out a clean)
      → ((session_bound ≡ true)
          × ((session_new_device ≡ true → allowed_on_new_device a ≡ true) × (as_str a ≡ action)))
        × IsAuthentic lib m action payload bound_id s s' clean
  unfolding handle_command command_is_authorized
  handle_command-carried_out m action payload bound new bound_id s s' a clean h =
      elim (Bool-cases (command_is_authorized bound new (parse action))) [
        | inr refused ↦ absurd (ground arith)
        | inl passed ↦
            let (named, verified) =
              after_signature-carried_out (parse action)
                (verify_command lib m action payload bound_id s) s' a clean
                (rw (passed, handle_command) at h) in
            (
              (ground arith, (ground arith, (parse-as_str_iff action a).0 named)),
              verify_command-IsAuthentic lib m action payload bound_id s s' clean verified,
            )
      ]
